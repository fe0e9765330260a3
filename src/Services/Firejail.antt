-- ===== src/Services/Firejail.antt =====
-- lib/oeqa/runtime/cases/firejail.py: the class `FirejailTest`.
use meta_security.Text.{lit}
use meta_security.Oeqa.{History, M, Target}
use meta_security.Oeqa.Verdict.{HasStatus, Verdict, expect_status, expect_status-Verdict, report}

unfoldable pub test_firejail_basic : M (Unit {0})
unfolding expect_status
test_firejail_basic =
    expect_status (lit "firejail --help") 0
      (report (lit "Firejail --help command does not work as expected. "))

-- The test sends its one command and passes exactly when the status is 0.
pub firejail_verdicts :
    (t : Target) (h : History)
    → Verdict t h test_firejail_basic (lit "firejail --help") (HasStatus 0)
unfolding test_firejail_basic
firejail_verdicts t h = search expect_status-Verdict
