-- ===== src/Services/Samhain.antt =====
-- lib/oeqa/runtime/cases/samhain.py: the class `SamhainTest`.
use meta_security.Prelude.{◌≡◌, ◌↔◌, [], ◌∷◌, ◌++◌, Option, none, some, arith, ok}
use meta_security.Text.{Str, lit}
use meta_security.Oeqa.{Action, run, History, Target, M, ◌>>=◌, ◌>>◌, act, assert_status}
use meta_security.Oeqa.Verdict.{Verdict, HasStatusOr, report, expect_match, expect_match-Verdict}

-- `self.td.get('MACHINE', '')`
abbrev pub machine_of : Option Str → Str
machine_of none = []
machine_of (some m) = m

abbrev pub append_hosts : Str → Action
append_hosts machine = run (
    lit "echo \"127.0.0.1 "
    ++ (machine ++ (lit ".localdomain  " ++ (machine ++ lit "\" >> /etc/hosts"))))

unfoldable pub test_samhain_help : Option Str → M (Unit {0})
test_samhain_help machine = do
  r ← act (append_hosts (machine_of machine))
  assert_status r.status 0 (report (lit "samhain can't append hosts. ") r)
  s ← act (run (lit "samhain --help"))
  assert_status s.status 0 (report (lit "samhain command does not work as expected. ") s)

unfoldable pub test_samhain_init_db : M (Unit {0})
unfolding expect_match
test_samhain_init_db =
    expect_match (lit "samhain -t init") (lit "FAILED: 0 ") 0
      (report (lit "samhain database init had an unexpected failure. "))

unfoldable pub test_samhain_db_check : M (Unit {0})
unfolding expect_match
test_samhain_db_check =
    expect_match (lit "samhain -t check") (lit "FAILED: 0 ") 0
      (report (lit "samhain errors found in db. "))

abbrev pub appended : Option Str → History → History
appended machine h = h ++ (append_hosts (machine_of machine) ∷ [])

-- The help test passes exactly when the line was added to the hosts and `samhain --help` ended with
-- status 0. The two tests of the database send one command, and pass exactly when the status is 0 or
-- the output reports no failure.
pub samhain_verdicts :
    (machine : Option Str) (t : Target) (h : History)
    → (((test_samhain_help machine t h).0 ≡ ok tt) ↔ (
        ((t h (append_hosts (machine_of machine))).status ≡ 0)
        × ((t (appended machine h) (run (lit "samhain --help"))).status ≡ 0)))
      × (Verdict t h test_samhain_init_db
          (lit "samhain -t init")
          (HasStatusOr 0 (lit "FAILED: 0 ")))
      × (Verdict t h test_samhain_db_check
          (lit "samhain -t check")
          (HasStatusOr 0 (lit "FAILED: 0 ")))
unfolding test_samhain_help test_samhain_init_db test_samhain_db_check
samhain_verdicts machine t h =
    (ground arith, search expect_match-Verdict, search expect_match-Verdict)
