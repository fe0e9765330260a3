-- ===== src/Notroot/Tests.antt =====
-- The theorems on notroot.py with a kernel that lets only user 0 change its group and user.
use meta_security.Prelude.{
  arith, zero, suc, ◌≡◌, refl, ap, sym, List, [], ◌∷◌, none, some, Result, ok, err,
}
use meta_security.Text.{Str, lit, words, is_space}
use meta_security.Text.Words.{words_from-append}
use meta_security.Oeqa.{Target}
use meta_security.Smack.Defs.{SmackClass, notroot, set_up_class, test_privileged_change_self_label}
use meta_security.Notroot.Unlabelled.{IsShell, privileged, script, unlabelled-executed}
use meta_security.Text.Numbers.{ℤ, pos, negsuc, int, decimal}
use meta_security.Notroot.Defs.{
  Failure, os_error, Cred, Kernel, started, executed, step, Reach, here, run,
}
use meta_security.Notroot.Safety.{IsKernel, Reach-executed}
use meta_security.Notroot.Ends.{run-Reach}
use meta_security.Notroot.Status.{IsOutcome, run-IsOutcome}
use meta_security.Notroot.Root.{GrantsRoot, run-GrantsRoot}

abbrev refused : Result Failure Cred
refused = err (os_error (lit "Operation not permitted"))

abbrev by_root : ℤ → Cred → Result Failure Cred
by_root (pos zero) c = ok c
by_root (pos (suc n)) c = refused
by_root (negsuc n) c = refused

abbrev kernel : Kernel
kernel = record {
  write_label = λ label c. ok (record c { label = label });
  setgid = λ g c. by_root c.uid (record c { gid = g });
  setuid = λ u c. by_root c.uid (record c { uid = u });
  execv = λ path args c. none;
}

cred_of : Result Failure Cred → Cred
cred_of (ok c) = c
cred_of (err e) = record { uid = pos 0; gid = pos 0; label = [] }

ok_injective : {c c' : Cred} → ◌≡◌ {A = Result Failure Cred} (ok c) (ok c') → c ≡ c'
unfolding cred_of
ok_injective e = ap cred_of e

by_root-ok : (u : ℤ) (c c' : Cred) → by_root u c ≡ ok c' → c ≡ c'
by_root-ok (pos zero) c c' e = ok_injective e
by_root-ok (pos (suc n)) c c' e = cc
by_root-ok (negsuc n) c c' e = cc

kernel-IsKernel : IsKernel kernel
kernel-IsKernel = record {
  setgid_ids = λ g c c' e.
      let same = by_root-ok c.uid (record c { gid = g }) c' e in
      (sym (ap (λ (x : Cred). x.uid) same), sym (ap (λ (x : Cred). x.gid) same));
  setuid_ids = λ u c c' e.
      let same = by_root-ok c.uid (record c { uid = u }) c' e in
      (sym (ap (λ (x : Cred). x.uid) same), sym (ap (λ (x : Cred). x.gid) same));
}

by_root_root : (u : ℤ) (c : Cred) → u ≡ pos 0 → by_root u c ≡ ok c
by_root_root u c e = rw e refl

kernel-GrantsRoot : (label : Str) → GrantsRoot kernel label
kernel-GrantsRoot label = record {
  write_label_root = λ c e. (record c { label = label }, refl, e);
  setgid_root =
      λ n c m e. (record c { gid = pos n }, by_root_root c.uid (record c { gid = pos n }) e);
  setuid_root =
      λ n c m e. (record c { uid = pos n }, by_root_root c.uid (record c { uid = pos n }) e);
}

abbrev root : Cred
root = record { uid = pos 0; gid = pos 0; label = lit "_" }

abbrev tester : Cred
tester = record { uid = pos 10; gid = pos 10; label = lit "User" }

abbrev argv : List Str
argv = lit "notroot.py" ∷ lit "10" ∷ lit "User" ∷ lit "/bin/ping" ∷ lit "-c" ∷ []

int-lit : int (lit "10") ≡ some (pos 10)
unfolding int lit
int-lit = refl

run-Reach_executed :
    Reach kernel
      (started argv root)
      (executed (lit "/bin/ping") (lit "/bin/ping" ∷ lit "-c" ∷ []) tester)
unfolding run step int lit
run-Reach_executed =
    (run-Reach kernel 8 (started argv root) (started argv root) here (omega arith)).0

Reach-executed_example :
    (uid : ℤ) × (prog : Str) × (user : Str) × (label : Str) × (rest : List Str) × (argv
      ≡ prog ∷ user ∷ label ∷ lit "/bin/ping" ∷ rest)
    × (int user ≡ some uid)
    × (lit "/bin/ping" ∷ lit "-c" ∷ [] ≡ lit "/bin/ping" ∷ rest)
    × (pos 10 ≡ uid)
    × (pos 10 ≡ uid)
Reach-executed_example =
    Reach-executed kernel argv root tester (lit "/bin/ping") (lit "/bin/ping" ∷ lit "-c" ∷ [])
      kernel-IsKernel run-Reach_executed

run-IsOutcome_example : IsOutcome kernel argv root (run kernel 8 (started argv root))
run-IsOutcome_example = run-IsOutcome kernel argv root

run-GrantsRoot_example :
    (c' : Cred) × (run kernel 8 (started argv root)
      ≡ executed (lit "/bin/ping") (lit "/bin/ping" ∷ lit "-c" ∷ []) c')
    × (c'.uid ≡ pos 10)
    × (c'.gid ≡ pos 10)
run-GrantsRoot_example =
    run-GrantsRoot kernel (lit "notroot.py") (lit "10") (lit "User") (lit "/bin/ping")
      (lit "-c" ∷ []) 10 root kernel-IsKernel (kernel-GrantsRoot (lit "User")) (λ c. refl) refl
      int-lit (omega arith)

-- `split()` splits plain text as a shell does.
words-IsShell : IsShell words
unfolding words is_space
words-IsShell = record { plain = λ s r e. words_from-append [] s r 32 refl }

abbrev smack : Target
smack h a = record { status = 0; output = lit "/sys/fs/smackfs" }

abbrev class : SmackClass
class = record { current_label = []; uid = 1000; smack_path = lit "/sys/fs/smackfs" }

abbrev sent : Str
sent =
    notroot 0 []
      (lit "/bin/sh -c 'echo PRIVILEGED >/proc/self/attr/current'; cat /proc/self/attr/current")

abbrev shell_label : Cred
shell_label = record { uid = pos 0; gid = pos 0; label = lit "/bin/sh" }

run-sent :
    Reach kernel
      (started (words sent) root)
      (executed (lit "-c") (lit "-c" ∷ words (script privileged)) shell_label)
unfolding run step int lit words is_space decimal
run-sent =
    (run-Reach kernel 8 (started (words sent) root) (started (words sent) root) here
      (omega arith)).0

unlabelled-executed_example :
    (lit "-c" ≡ lit "-c")
    × (lit "-c" ∷ words (script privileged) ≡ lit "-c" ∷ words (script privileged))
unfolding set_up_class test_privileged_change_self_label
unlabelled-executed_example =
    unlabelled-executed words kernel privileged class smack [] [] sent root shell_label (lit "-c")
      (lit "-c" ∷ words (script privileged)) words-IsShell kernel-IsKernel refl refl run-sent
