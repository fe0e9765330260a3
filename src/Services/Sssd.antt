-- ===== src/Services/Sssd.antt =====
-- lib/oeqa/runtime/cases/sssd.py: the class `SSSDTest`.
use meta_security.Text.{lit}
use meta_security.Oeqa.{History, M, Target}
use meta_security.Oeqa.Verdict.{
  HasStatus, HasStatusOrLacks, Verdict, expect_no_match, expect_no_match-Verdict, expect_status,
  expect_status-Verdict, report,
}

unfoldable pub test_sssd_help : M (Unit {0})
unfolding expect_status
test_sssd_help =
    expect_status (lit "sssctl --help") 1
      (report (lit "sssctl command does not work as expected. "))

unfoldable pub test_sssd_sssctl_conf_perms_chk : M (Unit {0})
unfolding expect_no_match
test_sssd_sssctl_conf_perms_chk =
    expect_no_match (lit "sssctl domain-status") (lit "ConfDB initialization has failed") 0
      (report (lit "sssctl domain-status failed, check sssd.conf perms. "))

unfoldable pub test_sssd_sssctl_deamon : M (Unit {0})
unfolding expect_no_match
test_sssd_sssctl_deamon =
    expect_no_match (lit "sssctl domain-list") (lit "No domains configured, fatal error!") 0
      (report (lit "sssctl domain-list failed, sssd.conf not setup correctly. "))

-- Each test sends its one command. The first passes exactly when the status is 1. The others pass
-- exactly when the status is 0 or the output lacks the error, so an error with status 0 passes.
pub sssd_verdicts :
    (t : Target) (h : History)
    → (Verdict t h test_sssd_help (lit "sssctl --help") (HasStatus 1))
      × (Verdict t h test_sssd_sssctl_conf_perms_chk
          (lit "sssctl domain-status")
          (HasStatusOrLacks 0 (lit "ConfDB initialization has failed")))
      × (Verdict t h test_sssd_sssctl_deamon
          (lit "sssctl domain-list")
          (HasStatusOrLacks 0 (lit "No domains configured, fatal error!")))
unfolding test_sssd_help test_sssd_sssctl_conf_perms_chk test_sssd_sssctl_deamon
sssd_verdicts t h =
    (search expect_status-Verdict, search expect_no_match-Verdict, search expect_no_match-Verdict)
