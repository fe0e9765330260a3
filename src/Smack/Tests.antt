-- ===== src/Smack/Tests.antt =====
-- The theorems on `SmackBasicTest` at a target that answers every command with status 0 and one line.
use meta_security.Prelude.{ℕ, ◌≡◌, ◌↔◌, refl, [], ◌∷◌, ◌++◌, ok, true, arith}
use meta_security.Text.{Str, starts_with, is_infix, lit, strip, split_on, words, is_space, join}
use meta_security.Oeqa.{History, run, Target}
use meta_security.Smack.Defs.{
  SmackClass, test_smack_cipso, test_smack_direct, read_from, write_line,
}
use meta_security.Smack.Labels.{test_load_smack_rule, transmutable, add_label, without_empty}
use meta_security.Text.Words.{IsDense, IsWord}
use meta_security.Smack.Settings.{direct, overwritten, test_of_setting_restores}
use meta_security.Smack.Fields.{Shows, row, spaces, test_load_smack_rule-Shows}
use meta_security.Smack.Files.{files, ask, test_smack_labels_lem}
use meta_security.Smack.Table.{status_command, expected, test_smack_labels}
use meta_security.Smack.Pieces.{is_first, is_solid, has_char}
use meta_security.Smack.RoundTrip.{IsShownOnce, add_label-line}
use meta_security.Smack.Table.{files_of}
use meta_security.Smack.Rules.{IsShown, ruled, rule_a, rule_b, rule_c, test_smack_cipso-IsShown}

abbrev target : Target
target h a = record { status = 0; output = lit "/sys/fs/smackfs" }

abbrev class : SmackClass
class = record { current_label = []; uid = 1000; smack_path = lit "/sys/fs/smackfs" }

test_of_setting_restores_example :
    ((test_smack_direct class target []).1
      ≡ overwritten direct class []
        ++ (read_from class (lit "/direct") ∷ [])
        ++ (write_line class (lit "/sys/fs/smackfs") (lit "/direct") ∷ []))
    × (((test_smack_direct class target []).0 ≡ ok tt) ↔ (strip (lit "/sys/fs/smackfs") ≡ lit "17"))
test_of_setting_restores_example = test_of_setting_restores direct class target [] refl

test_smack_cipso-IsShown_example : ((test_smack_cipso class target []).0 ≡ ok tt) ↔ (
    IsShown target class rule_a (lit "A") (lit " 2") []
    × IsShown target class rule_b (lit "B") (lit "/55") (ruled class rule_a (lit "A") [])
    × IsShown target class rule_c
        (lit "C")
        (lit "/17,33")
        (ruled class rule_b (lit "B") (ruled class rule_a (lit "A") [])))
test_smack_cipso-IsShown_example = test_smack_cipso-IsShown class target []

files_of-lit :
    files_of (lit "\n/tmp/ access=\"*\"\n/etc/ access=\"System::Shared\" transmute=\"TRUE\"\n")
    ≡ lit "/tmp/ /etc/"
unfolding files_of without_empty split_on words is_space lit join
files_of-lit = refl

abbrev no_text : Str
no_text = []

-- What chsmack shows of a directory whose first attribute is that of another test.
before : Str
before = lit "/home/root/test_transmutable access=\"_\" "

chsmack : Target
chsmack h a = record {
  status = 0;
  output = lit "/home/root/test_transmutable access=\"_\" transmute=\"TRUE\"";
}

transmutable-IsShownOnce : IsShownOnce transmutable before b'T' (lit "RUE") []
unfolding before is_first is_infix is_solid has_char starts_with is_space lit
transmutable-IsShownOnce = record { first = refl; last = refl; solid = refl; unquoted = refl }

add_label-line_example :
    ((add_label transmutable chsmack []).0 ≡ ok tt)
    ↔ ((b'T' ∷ lit "RUE" ≡ lit "TRUE") × (no_text ≡ []))
unfolding before lit chsmack
add_label-line_example =
    add_label-line transmutable before b'T' (lit "RUE") [] chsmack [] refl refl
      transmutable-IsShownOnce

-- The kernel shows the rule that was written last.
shown : History → Str
shown [] = lit "TheOne  TheOther rwxat"
shown (a ∷ []) = lit "TheOne  TheOther rwxat"
shown (a ∷ b ∷ h) = lit "TheOne  TheOther r"

rules : Target
rules h a = record { status = 0; output = shown h }

is_solid-IsDense : (w : Str) → is_solid w ≡ true → IsDense w
unfolding is_solid
is_solid-IsDense [] e = tt
is_solid-IsDense (c ∷ w) e = (ground (arith, e), is_solid-IsDense w (ground (arith, e)))

cons-IsWord : (c : ℕ) (w : Str) → is_solid (c ∷ w) ≡ true → IsWord (c ∷ w)
cons-IsWord c w e = ((λ q. cc), is_solid-IsDense (c ∷ w) e)

-- Two words of the rule, its mode and the spaces between them.
Shows-mode :
    (c : ℕ) (w : Str) → is_solid (c ∷ w) ≡ true → Shows (lit "TheOne  TheOther " ++ (c ∷ w)) (c ∷ w)
unfolding row spaces is_solid is_space lit
Shows-mode c w e = (
  lit "TheOne",
  1,
  lit "TheOther",
  0,
  refl,
  cons-IsWord b'T' (lit "heOne") refl,
  cons-IsWord b'T' (lit "heOther") refl,
  cons-IsWord c w e,
)

test_load_smack_rule-Shows_example :
    ((test_load_smack_rule class rules []).0 ≡ ok tt)
    ↔ (((rules [] (run [])).status ≡ 0) × (lit "rwxat" ≡ lit "rwxat") × (lit "r" ≡ lit "r"))
unfolding rules shown is_solid is_space lit
test_load_smack_rule-Shows_example =
    test_load_smack_rule-Shows class rules [] (lit "rwxat") (lit "r")
      (Shows-mode b'r' (lit "wxat") refl) (Shows-mode b'r' [] refl)

test_smack_labels_lem_example :
    let asked = run (status_command files) ∷ [] in
    ((test_smack_labels target []).1 ≡ asked ++ (ask ∷ []))
    × (((test_smack_labels target []).0 ≡ ok tt)
        ↔ (((target asked ask).status ≡ 0) × (strip (lit "/sys/fs/smackfs") ≡ strip expected)))
test_smack_labels_lem_example = test_smack_labels_lem target []
