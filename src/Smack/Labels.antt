-- ===== src/Smack/Labels.antt =====
-- The tests of `SmackBasicTest` that read labels out of what chsmack and the kernel print.
use meta_security.Prelude.{
  ℕ, Bool, true, false, not, ◌&&◌, ◌||◌, List, [], ◌∷◌, ◌++◌, Option, none, some, Result, ok, err,
  get_elem?, leb, ◌==◌, if◌then◌else◌,
}
use meta_security.Text.{Str, lit, str_eq, starts_with, is_space, strip, split_on}
use meta_security.Text.Numbers.{decimal}
use meta_security.Oeqa.{
  text, Exception, index_error, run, Action, M, ◌>>=◌, ◌>>◌, pure, act, assert_true, assert_status,
  fail, from_result,
}
use meta_security.Ima.Defs.{or_raise}
use meta_security.Smack.Defs.{SmackClass, smack_label, read_from, write_line}

-- The text behind a prefix that it starts with.
unfoldable pub drop_prefix : Str → Str → Str
drop_prefix [] s = s
drop_prefix (d ∷ p) [] = []
drop_prefix (d ∷ p) (c ∷ s) = drop_prefix p s

-- `\S+(?=")` fits here; the flag is set behind the first character.
unfoldable pub is_quoted : Bool → Str → Bool
is_quoted behind [] = false
is_quoted behind (c ∷ s) = behind && c == b'"' || not (is_space c) && is_quoted true s

-- `re.search('(attr=")\S+(?=")', s)` finds a match, for the text `attr="` as `p`.
unfoldable pub has_label : Str → Str → Bool
has_label p [] = false
has_label p (c ∷ s) =
    starts_with (c ∷ s) p && is_quoted false (drop_prefix p (c ∷ s)) || has_label p s

-- The text up to the next occurrence of `p`.
unfoldable pub up_to : Str → Str → Str
up_to p [] = []
up_to p (c ∷ s) = let rest = up_to p s in if starts_with (c ∷ s) p then [] else c ∷ rest

-- `re.split(p, s)[1]`
unfoldable pub second_piece : Str → Str → Option Str
unfolding up_to drop_prefix
second_piece p [] = none
second_piece p (c ∷ s) =
    let rest = second_piece p s in
    if starts_with (c ∷ s) p then some (up_to p (drop_prefix p (c ∷ s))) else rest

-- `s[:-1]`
unfoldable pub drop_last : Str → Str
drop_last [] = []
drop_last (c ∷ []) = []
drop_last (c ∷ d ∷ s) = c ∷ drop_last (d ∷ s)

-- What the four label tests share: a path, the commands that make it, label it and remove it, the
-- attribute in `attr="` and its name, and the label that is expected.
pub record LabelTest : Type 0 where
  pub path : Str
  pub create : Str
  pub label : Str
  pub clean : Str
  pub kind : Str
  pub attribute : Str
  pub expected : Str

abbrev pub attr : LabelTest → Str
attr l = l.attribute ++ lit "=\""

-- `label_retrieved`, and its comparison
unfoldable pub check_label : LabelTest → Str → M (Unit {0})
unfolding has_label second_piece drop_last
check_label l output =
    if has_label (attr l) output
    then (do
      piece ← from_result (or_raise (second_piece (attr l) output) index_error)
      assert_true (str_eq l.expected (drop_last piece)) (
          text (
            lit "label not set correctly. expected and gotten: "
            ++ (smack_label ++ (lit " " ++ drop_last piece)))))
    else fail (text (lit "Did not find " ++ (l.attribute ++ lit " attribute")))

unfoldable pub add_label : LabelTest → M (Unit {0})
unfolding check_label
add_label l = do
  act (run (l.create ++ l.path))
  r ← act (run (l.label ++ l.path))
  assert_status r.status 0 (
      text (
        lit "Cannot set smack "
        ++ (l.kind
            ++ (lit ". Status and output: " ++ (decimal r.status ++ (lit " " ++ r.output))))))
  q ← act (run (lit "chsmack " ++ l.path))
  act (run (l.clean ++ l.path))
  check_label l q.output

abbrev pub file_label : Str → Str → Str → Str → LabelTest
file_label path option kind attribute = record {
  path = path;
  create = lit "touch ";
  label = lit "chsmack " ++ (option ++ (lit " " ++ (smack_label ++ lit " ")));
  clean = lit "rm ";
  kind = kind;
  attribute = attribute;
  expected = smack_label;
}

unfoldable pub test_add_access_label : M (Unit {0})
unfolding add_label
test_add_access_label =
    add_label
      (file_label (lit "/tmp/test_access_label") (lit "-a") (lit "access label") (lit "access"))

unfoldable pub test_add_exec_label : M (Unit {0})
unfolding add_label
test_add_exec_label =
    add_label
      (file_label (lit "/tmp/test_exec_label") (lit "-e") (lit "exec label") (lit "execute"))

unfoldable pub test_add_mmap_label : M (Unit {0})
unfolding add_label
test_add_mmap_label =
    add_label (file_label (lit "/tmp/test_exec_label") (lit "-m") (lit "mmap label") (lit "mmap"))

abbrev pub transmutable : LabelTest
transmutable = record {
  path = lit "~/test_transmutable";
  create = lit "mkdir -p ";
  label = lit "chsmack -t ";
  clean = lit "rmdir ";
  kind = lit "transmutable";
  attribute = lit "transmute";
  expected = lit "TRUE";
}

unfoldable pub test_add_transmutable : M (Unit {0})
unfolding add_label
test_add_transmutable = add_label transmutable

unfoldable pub test_unprivileged_change_file_label : SmackClass → M (Unit {0})
test_unprivileged_change_file_label c = do
  chsmack ← act (run (lit "which chsmack"))
  act (run (lit "which touch"))
  act (run (lit "touch /tmp/test_unprivileged_change_file_label"))
  act (run (lit "/usr/sbin/notroot.py " ++ (decimal c.uid ++ (lit " " ++ c.current_label))))
  r ← act (
      run (
        lit "/usr/sbin/notroot.py "
        ++ (decimal c.uid
            ++ (lit " unprivileged "
                ++ (chsmack.output
                    ++ (lit " -a "
                        ++ (smack_label
                            ++ lit
                                " /tmp/test_unprivileged_change_file_label 2>&1 | grep 'Operation not permitted'")))))))
  act (run (lit "rm /tmp/test_unprivileged_change_file_label"))
  assert_status r.status 0
      (text (lit "Unprivileged process changed label for /tmp/test_unprivileged_change_file_label"))

-- `list(filter(bool, s.split(" ")))`
unfoldable pub without_empty : List Str → List Str
without_empty [] = []
without_empty ([] ∷ ws) = without_empty ws
without_empty ((c ∷ w) ∷ ws) = (c ∷ w) ∷ without_empty ws

-- `list(filter(bool, output.split(" ")))[2].strip()`
unfoldable pub mode_of : Str → Result Exception Str
unfolding without_empty
mode_of output = elim (get_elem? (without_empty (split_on b' ' output)) 2) [
  | none ↦ err index_error
  | some m ↦ ok (strip m)
]

abbrev pub load : SmackClass → Str → Action
load c rule = run (lit "echo -n \"" ++ (rule ++ (lit "\" > " ++ (c.smack_path ++ lit "/load"))))

abbrev pub show_load : SmackClass → Action
show_load c =
    run (lit "cat " ++ (c.smack_path ++ lit "/load | grep \"^TheOne\" | grep \" TheOther \""))

unfoldable pub test_load_smack_rule : SmackClass → M (Unit {0})
unfolding mode_of
test_load_smack_rule c = do
  act (load c (lit "TheOne                  TheOther                rwxat"))
  a ← act (show_load c)
  assert_status a.status 0 (text (lit "Rule A was not added"))
  mode_a ← from_result (mode_of a.output)
  assert_true (str_eq mode_a (lit "rwxat"))
      (text (lit "Mode A was not set correctly; mode: " ++ mode_a))
  act (load c (lit "TheOne                  TheOther                r----"))
  b ← act (show_load c)
  mode_b ← from_result (mode_of b.output)
  assert_true (str_eq mode_b (lit "r"))
      (text (lit "Mode B was not set correctly; mode: " ++ mode_b))
  act (load c (lit "TheOne                  TheOther                -----"))
  pure tt

-- `x in string.printable`
abbrev pub is_printable : ℕ → Bool
is_printable c = leb 9 c && leb c 13 || leb 32 c && leb c 126

unfoldable pub printable : Str → Str
printable [] = []
printable (c ∷ s) = let rest = printable s in if is_printable c then c ∷ rest else rest

unfoldable pub test_smack_ambient : SmackClass → M (Unit {0})
unfolding printable
test_smack_ambient c = do
  initial ← act (read_from c (lit "/ambient"))
  a ← act (write_line c (lit "test_ambient") (lit "/ambient"))
  assert_status a.status 0 (text (lit "Could not set smack ambient. Output: " ++ a.output))
  b ← act (read_from c (lit "/ambient"))
  act (write_line c (printable initial.output) (lit "/ambient"))
  assert_true (str_eq (lit "test_ambient") (strip (printable b.output)))
      (text (lit "Ambient label does not match"))
