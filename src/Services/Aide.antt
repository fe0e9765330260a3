-- ===== src/Services/Aide.antt =====
-- lib/oeqa/runtime/cases/aide.py: the class `AideTest`.
use meta_security.Prelude.{◌++◌}
use meta_security.Text.{lit}
use meta_security.Oeqa.{History, M, Target, text}
use meta_security.Oeqa.Verdict.{
  HasStatus, HasStatusOr, Verdict, expect_match, expect_match-Verdict, expect_status,
  expect_status-Verdict, report,
}

unfoldable pub test_aide_help : M (Unit {0})
unfolding expect_status
test_aide_help =
    expect_status (lit "aide --help") 0
      (report (lit "Aide help command does not work as expected. "))

unfoldable pub test_aide_dbinit : M (Unit {0})
unfolding expect_match
test_aide_dbinit =
    expect_match (lit "aide --init") (lit "Number of entries:") 0
      (λ r. text (lit "Aide db init failed: output is:\n" ++ r.output))

-- Each test sends its one command. The first passes exactly when the status is 0, the second when
-- it is 0 or the output counts the entries.
pub aide_verdicts :
    (t : Target) (h : History)
    → (Verdict t h test_aide_help (lit "aide --help") (HasStatus 0))
      × (Verdict t h test_aide_dbinit
          (lit "aide --init")
          (HasStatusOr 0 (lit "Number of entries:")))
unfolding test_aide_help test_aide_dbinit
aide_verdicts t h = (search expect_status-Verdict, search expect_match-Verdict)
