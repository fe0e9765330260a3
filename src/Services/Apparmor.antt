-- ===== src/Services/Apparmor.antt =====
-- lib/oeqa/runtime/cases/apparmor.py: the class `ApparmorTest`.
use meta_security.Text.{lit}
use meta_security.Oeqa.{History, M, Target}
use meta_security.Oeqa.Verdict.{
  HasStatus, HasStatusOr, Verdict, expect_match, expect_match-Verdict, expect_status,
  expect_status-Verdict, report,
}

unfoldable pub test_apparmor_help : M (Unit {0})
unfolding expect_status
test_apparmor_help =
    expect_status (lit "aa-status --help") 0
      (report (lit "apparmor command does not work as expected. "))

unfoldable pub test_apparmor_aa_status : M (Unit {0})
unfolding expect_match
test_apparmor_aa_status =
    expect_match (lit "aa-status") (lit "apparmor module is loaded.") 0
      (report (lit "aa-status  failed. "))

unfoldable pub test_apparmor_aa_complain : M (Unit {0})
unfolding expect_match
test_apparmor_aa_complain =
    expect_match (lit "aa-complain /etc/apparmor.d/*") (lit "apparmor module is loaded.") 0
      (report (lit "aa-complain  failed. "))

unfoldable pub test_apparmor_aa_enforce : M (Unit {0})
unfolding expect_match
test_apparmor_aa_enforce =
    expect_match (lit "aa-enforce /etc/apparmor.d/*") (lit "apparmor module is loaded.") 0
      (report (lit "aa-enforce  failed. "))

-- Each test sends its one command. The first passes exactly when the status is 0, the others when
-- it is 0 or the output says that the module is loaded.
pub apparmor_verdicts :
    (t : Target) (h : History)
    → (Verdict t h test_apparmor_help (lit "aa-status --help") (HasStatus 0))
      × (Verdict t h test_apparmor_aa_status
          (lit "aa-status")
          (HasStatusOr 0 (lit "apparmor module is loaded.")))
      × (Verdict t h test_apparmor_aa_complain
          (lit "aa-complain /etc/apparmor.d/*")
          (HasStatusOr 0 (lit "apparmor module is loaded.")))
      × (Verdict t h test_apparmor_aa_enforce
          (lit "aa-enforce /etc/apparmor.d/*")
          (HasStatusOr 0 (lit "apparmor module is loaded.")))
unfolding test_apparmor_help test_apparmor_aa_status test_apparmor_aa_complain
    test_apparmor_aa_enforce
apparmor_verdicts t h = (
  search expect_status-Verdict,
  search expect_match-Verdict,
  search expect_match-Verdict,
  search expect_match-Verdict,
)
