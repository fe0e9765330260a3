-- ===== src/Notroot/Unlabelled.antt =====
-- notroot.py as two tests of smack.py call it, without a label. The shell that splits their command
-- into words is a parameter.
use meta_security.Prelude.{
  ◌≡◌, refl, ap, sym, ◌∙◌, Bool, true, ◌&&◌, ◌||◌, ◌==◌, leb, List, [], ◌∷◌, ◌++◌, ok,
}
use meta_security.Text.{Str, lit, words, is_space}
use meta_security.Text.Numbers.{decimal}
use meta_security.Oeqa.{Action, run, Target, History, M}
use meta_security.Smack.Defs.{
  SmackClass, set_up_class, notroot, smack_label, test_privileged_change_self_label,
  test_unprivileged_change_self_label,
}
use meta_security.Smack.Rules.{set_up_class_unlabelled}
use meta_security.Notroot.Defs.{Cred, Kernel, started, executed, Reach}
use meta_security.Notroot.Safety.{IsKernel, Reach-executed}

-- Letters, digits, spaces, and `-`, `.`, `/` and `_`: what means itself to a shell.
unfoldable pub is_plain : Str → Bool
is_plain [] = true
is_plain (c ∷ s) =
    (leb 97 c && leb c 122 || leb 45 c && leb c 57 || c == 95 || c == 32) && is_plain s

-- A shell splits plain text at its spaces.
pub record IsShell (split : Str → List Str) : Type 0 where
  pub plain : (s r : Str) → is_plain s ≡ true → split (s ++ (32 ∷ r)) ≡ words s ++ split r

-- The two tests, and the end of their commands behind `/bin/sh -c`.
pub data SelfTest : Type 0 where
  privileged unprivileged : SelfTest

abbrev pub method : SelfTest → SmackClass → M (Unit {0})
method privileged = test_privileged_change_self_label
method unprivileged = test_unprivileged_change_self_label

abbrev pub script : SelfTest → Str
script privileged = lit "'echo PRIVILEGED >/proc/self/attr/current'; cat /proc/self/attr/current"
script unprivileged =
    (lit "'echo " ++ (smack_label ++ lit " >/proc/self/attr/current'"))
    ++ lit " 2>&1 | grep 'Operation not permitted'"

abbrev pub user : SelfTest → Str
user privileged = lit "0"
user unprivileged = lit "1000"

abbrev command : SelfTest → Str
command privileged =
    notroot 0 []
      (lit "/bin/sh -c 'echo PRIVILEGED >/proc/self/attr/current'; cat /proc/self/attr/current")
command unprivileged =
    notroot 1000 [] (lit "/bin/sh -c 'echo " ++ (smack_label ++ lit " >/proc/self/attr/current'"))
    ++ lit " 2>&1 | grep 'Operation not permitted'"

append_injective :
    (h : History) (a b : Action) → ◌≡◌ {A = History} (h ++ (a ∷ [])) (h ++ (b ∷ [])) → a ≡ b
append_injective [] a b e = cc
append_injective (x ∷ h) a b e = append_injective h a b (cc)

command-sent :
    (x : SelfTest) (c : SmackClass) (t : Target) (h₀ h : History) (cmd : Str)
    → (set_up_class t h₀).0 ≡ ok c
    → (method x c t h).1 ≡ h ++ (run cmd ∷ [])
    → cmd ≡ command x
command-sent privileged c t h₀ h cmd e q = cc (
    append_injective h (run cmd) (run (command privileged))
      (sym q ∙ (set_up_class_unlabelled c t h₀ h e).0))
command-sent unprivileged c t h₀ h cmd e q = cc (
    append_injective h (run cmd) (run (command unprivileged))
      (sym q ∙ (set_up_class_unlabelled c t h₀ h e).1))

-- The shell finds no label in the command, so the words behind it move up.
split-command :
    (split : Str → List Str) (x : SelfTest)
    → IsShell split
    → split (command x)
      ≡ lit "/usr/sbin/notroot.py" ∷ user x ∷ lit "/bin/sh" ∷ lit "-c" ∷ split (script x)
unfolding lit decimal words is_space is_plain
split-command split privileged s =
    s.plain (lit "/usr/sbin/notroot.py 0  /bin/sh -c") (script privileged) refl
split-command split unprivileged s =
    s.plain (lit "/usr/sbin/notroot.py 1000  /bin/sh -c") (script unprivileged) refl

-- With the class as `setUpClass` leaves it, and a shell that splits plain text at its spaces: whatever
-- notroot.py executes by the command of either test, is a program called -c, with `-c` and the words
-- behind it as its arguments.
pub unlabelled-executed :
    (split : Str → List Str) (k : Kernel) (x : SelfTest) (c : SmackClass) (t : Target)
    (h₀ h : History) (cmd : Str) (p p' : Cred) (path : Str) (args : List Str)
    → IsShell split
    → IsKernel k
    → (set_up_class t h₀).0 ≡ ok c
    → (method x c t h).1 ≡ h ++ (run cmd ∷ [])
    → Reach k (started (split cmd) p) (executed path args p')
    → (path ≡ lit "-c") × (args ≡ lit "-c" ∷ split (script x))
unlabelled-executed split k x c t h₀ h cmd p p' path args shell kernel e q r =
    let (uid, prog, user, label, rest, argv, u, a, i, j) =
      Reach-executed k (split cmd) p p' path args kernel r in
    let words =
      sym argv ∙ (ap split (command-sent x c t h₀ h cmd e q) ∙ split-command split x shell) in
    (cc words, cc (words, a))
