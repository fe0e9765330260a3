-- ===== src/Services/Checksec.antt =====
-- lib/oeqa/runtime/cases/checksec.py: the class `CheckSecTest`.
use meta_security.Prelude.{◌++◌}
use meta_security.Text.{lit}
use meta_security.Oeqa.{History, M, Target, text}
use meta_security.Oeqa.Verdict.{
  HasStatus, HasStatusOr, Verdict, expect_match, expect_match-Verdict, expect_status,
  expect_status-Verdict, report,
}

unfoldable pub test_checksec_help : M (Unit {0})
unfolding expect_status
test_checksec_help =
    expect_status (lit "checksec --help ") 0
      (report (lit "checksec  command does not work as expected. "))

unfoldable pub test_checksec_xml : M (Unit {0})
unfolding expect_status
test_checksec_xml =
    expect_status (lit "checksec --format=xml --proc=1") 0
      (λ r. text (lit "checksec xml failed. Output: " ++ r.output))

unfoldable pub test_checksec_fortify : M (Unit {0})
unfolding expect_match
test_checksec_fortify =
    expect_match (lit "checksec --fortify-proc 1") (lit "FORTIFY_SOURCE support:") 1
      (report (lit "checksec : fortify-proc failed. "))

-- Each test sends its one command. The first two pass exactly when the status is 0, the last when
-- it is 1 or the output has the line on FORTIFY_SOURCE.
pub checksec_verdicts :
    (t : Target) (h : History)
    → (Verdict t h test_checksec_help (lit "checksec --help ") (HasStatus 0))
      × (Verdict t h test_checksec_xml (lit "checksec --format=xml --proc=1") (HasStatus 0))
      × (Verdict t h test_checksec_fortify
          (lit "checksec --fortify-proc 1")
          (HasStatusOr 1 (lit "FORTIFY_SOURCE support:")))
unfolding test_checksec_help test_checksec_xml test_checksec_fortify
checksec_verdicts t h =
    (search expect_status-Verdict, search expect_status-Verdict, search expect_match-Verdict)
