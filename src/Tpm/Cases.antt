-- ===== src/Tpm/Cases.antt =====
-- The test cases of meta-tpm/lib/oeqa/runtime/cases/tpm2.py and swtpm.py.
use native.Mathlib.Decide.{ℕ_discrete}
use meta_security.Prelude.{
  ◌≡◌, ◌≢◌, ◌≤◌, ◌↔◌, ap, sym, ◌∙◌, refl, List, [], ◌∷◌, ◌++◌, ok, err, arith,
}
use meta_security.Text.{Str, lit, join}
use meta_security.Oeqa.{
  Message, text, failure, run, run_tuple, Reply, History, Target, M, ◌>>=◌, ◌>>◌, act, pure,
  assert_status,
}
use meta_security.Oeqa.Verdict.{Verdict, HasStatus, expect_status, expect_status-Verdict}
use meta_security.Tpm.Endlines.{
  check_endlines, check_endlines_lem, check_endlines_actions, count, split_lines,
}

-- `Tpm2Test`
unfoldable pub set_up_tpm2 : M Reply
set_up_tpm2 = act (run (lit "swtpm_ioctl -s --tcp :2322")) >> act (run (lit "mkdir /tmp/myvtpm2"))

unfoldable pub tear_down_tpm2 : M Reply
tear_down_tpm2 =
    act (run (lit "swtpm_ioctl -s --tcp :2322")) >> act (run (lit "rm -fr /tmp/myvtpm2"))

abbrev pub socket_command : Str
socket_command =
    lit
      "swtpm socket -d --tpmstate dir=/tmp/myvtpm2 --tpm2 --ctrl type=tcp,port=2322 --server type=tcp,port=2321 --flags not-need-init"

abbrev pub startup_command : Str
startup_command = lit "tpm2_startup -c -T \"swtpm:port=2321\""

-- `'\n'.join([cmd, output])`
abbrev pub startup_message : Str → Reply → Message
startup_message cmd r = text (join (lit "\n") (cmd ∷ r.output ∷ []))

-- The loop over the commands.
unfoldable pub run_all : List Str → M (Unit {0})
run_all [] = pure tt
run_all (cmd ∷ cmds) =
    let rest = run_all cmds in
    act (run cmd) >>= (λ r. assert_status r.status 0 (startup_message cmd r)) >> rest

unfoldable pub test_tpm2_startup : M (Unit {0})
unfolding run_all
test_tpm2_startup = run_all (socket_command ∷ startup_command ∷ [])

abbrev pub pcr_lines : List Str
pcr_lines =
    lit "  sha1:"
    ∷ lit "    0 : 0x0000000000000000000000000000000000000000"
    ∷ lit "    1 : 0x0000000000000000000000000000000000000000"
    ∷ lit "  sha256:"
    ∷ lit "    0 : 0x0000000000000000000000000000000000000000000000000000000000000000"
    ∷ lit "    1 : 0x0000000000000000000000000000000000000000000000000000000000000000"
    ∷ []

-- The status is not looked at.
unfoldable pub test_tpm2_pcrread : M (Unit {0})
test_tpm2_pcrread = act (run (lit "tpm2_pcrread")) >>= λ r. check_endlines r.output pcr_lines

unfoldable pub test_tpm2_pkcs11 : M (Unit {0})
unfolding expect_status
test_tpm2_pkcs11 =
    expect_status (lit "p11-kit list-modules -v") 0
      (λ r. text (lit "Modules missing: " ++ r.output))

unfoldable pub test_tpm2_swtpm_reset : M (Unit {0})
unfolding expect_status
test_tpm2_swtpm_reset =
    expect_status (lit "swtpm_ioctl -i --tcp :2322") 0
      (λ r. text (lit "swtpm reset failed: " ++ r.output))

-- `SwTpmTest`
unfoldable pub set_up_swtpm : M Reply
set_up_swtpm =
    act (run (lit "swtpm_ioctl -s --tcp :2322"))
    >> act (run (lit "mkdir /tmp/myvtpm2"))
    >> act (run (lit "chown tss:root /tmp/myvtpm2"))

unfoldable pub tear_down_swtpm : M Reply
tear_down_swtpm =
    act (run (lit "swtpm_ioctl -s --tcp :2322")) >> act (run (lit "rm -fr /tmp/myvtpm2"))

-- The command is a tuple of one text, by the comma behind it.
unfoldable pub test_swtpm2_ek_cert : M (Unit {0})
test_swtpm2_ek_cert =
    act (
      run_tuple
        (lit "swtpm_setup --tpmstate /tmp/myvtpm2 --create-ek-cert --create-platform-cert --tpm2"))
    >>= λ r. assert_status r.status 0 (text (lit "swtpm create-ek-cert failed: " ++ r.output))

-- Each test sends its one command and nothing else, and passes exactly when the status is 0.
pub tpm2_verdicts :
    (t : Target) (h : History)
    → (Verdict t h test_tpm2_pkcs11 (lit "p11-kit list-modules -v") (HasStatus 0))
      × (Verdict t h test_tpm2_swtpm_reset (lit "swtpm_ioctl -i --tcp :2322") (HasStatus 0))
unfolding test_tpm2_pkcs11 test_tpm2_swtpm_reset
tpm2_verdicts t h = (search expect_status-Verdict, search expect_status-Verdict)

-- The commands succeed one after the other.
abbrev pub AllSucceed : Target → List Str → History → Type 0
AllSucceed t [] h = Unit
AllSucceed t (c ∷ cs) h = ((t h (run c)).status ≡ 0) × AllSucceed t cs (h ++ (run c ∷ []))

module _ (c : Str) (cs : List Str) (t : Target) (h : History) where
  run_all_done : (t h (run c)).status ≡ 0 → run_all (c ∷ cs) t h ≡ run_all cs t (h ++ (run c ∷ []))
  unfolding run_all
  run_all_done s = ground arith

  run_all_failed :
      (t h (run c)).status ≢ 0
      → run_all (c ∷ cs) t h ≡ (err (failure (startup_message c (t h (run c)))), h ++ (run c ∷ []))
  unfolding run_all
  run_all_failed s = ground arith

abbrev outcome : {A B : Type 0} → A × B → A
outcome r = r.0

run_all-AllSucceed :
    (cs : List Str) (t : Target) (h : History) → ((run_all cs t h).0 ≡ ok tt) ↔ AllSucceed t cs h
unfolding run_all
run_all-AllSucceed [] t h = (λ _. tt, λ _. refl)
run_all-AllSucceed (c ∷ cs) t h =
    let (to, from) = run_all-AllSucceed cs t (h ++ (run c ∷ [])) in
    elim (ℕ_discrete (t h (run c)).status 0) [
      | yes s ↦
          let same = ap outcome (run_all_done c cs t h s) in
          (λ e. (s, to (sym same ∙ e)), λ a. same ∙ from a.1)
      | no n ↦ (λ e. cc (ap outcome (run_all_failed c cs t h n)), λ a. absurd (n a.0))
    ]

-- The startup test passes exactly when the simulator starts, and then `tpm2_startup` succeeds on it.
pub test_tpm2_startup-AllSucceed :
    (t : Target) (h : History)
    → ((test_tpm2_startup t h).0 ≡ ok tt) ↔ AllSucceed t (socket_command ∷ startup_command ∷ []) h
unfolding test_tpm2_startup
test_tpm2_startup-AllSucceed t h = run_all-AllSucceed (socket_command ∷ startup_command ∷ []) t h

-- The test of the registers sends its one command, and passes exactly when the output has every
-- expected line as often as it is expected, whatever the status.
pub test_tpm2_pcrread_lem :
    (t : Target) (h : History)
    → let r = t h (run (lit "tpm2_pcrread")) in
      ((test_tpm2_pcrread t h).1 ≡ h ++ (run (lit "tpm2_pcrread") ∷ []))
      × (((test_tpm2_pcrread t h).0 ≡ ok tt)
          ↔ ((x : Str) → count x pcr_lines ≤ count x (split_lines r.output)))
unfolding test_tpm2_pcrread
test_tpm2_pcrread_lem t h =
    let c = lit "tpm2_pcrread" in
    (
      check_endlines_actions (t h (run c)).output pcr_lines t (h ++ (run c ∷ [])),
      check_endlines_lem (t h (run c)).output pcr_lines t (h ++ (run c ∷ [])),
    )
