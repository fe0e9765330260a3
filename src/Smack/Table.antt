-- ===== src/Smack/Table.antt =====
-- `test_smack_labels`: the labels of an image against a table.
use mathlib.Core.List.{reverse}
use meta_security.Prelude.{Bool, true, false, ◌&&◌, List, [], ◌∷◌, ◌++◌, map, if◌then◌else◌, ◌==◌}
use meta_security.Text.{Str, lit, str_eq, strip, words, split_on, join}
use meta_security.Text.Numbers.{decimal}
use meta_security.Oeqa.{text, run, M, ◌>>=◌, ◌>>◌, act, assert_true, assert_status}
use meta_security.Smack.Labels.{without_empty}

abbrev pub expected : Str
expected =
    lit "\n/tmp/ access=\"*\"\n/etc/ access=\"System::Shared\" transmute=\"TRUE\"\n"
    ++ (lit "/etc/passwd access=\"System::Shared\"\n"
        ++ (lit "/etc/terminfo access=\"System::Shared\" transmute=\"TRUE\"\n"
            ++ (lit "/etc/skel/ access=\"System::Shared\" transmute=\"TRUE\"\n"
                ++ (lit "/etc/skel/.profile access=\"System::Shared\"\n"
                    ++ (lit "/var/log/ access=\"System::Log\" transmute=\"TRUE\"\n"
                        ++ lit "/var/tmp/ access=\"*\"\n")))))

-- `x.split()[0]`, for a line that is not blank
abbrev first_word : List Str → Str
first_word [] = []
first_word (w ∷ ws) = w

-- The first words of the lines that are not empty, with a space between them.
unfoldable pub files_of : Str → Str
unfolding without_empty
files_of table =
    join (lit " ") (map (λ (x : Str). first_word (words x)) (without_empty (split_on 10 table)))

-- `x.rstrip('/')`
drop_slashes : Str → Str
drop_slashes [] = []
drop_slashes (c ∷ s) = if c == b'/' then drop_slashes s else c ∷ s

abbrev rstrip_slashes : Str → Str
rstrip_slashes s = reverse (drop_slashes (reverse s))

unfoldable pub status_command : Str → Str
unfolding drop_slashes
status_command files =
    lit "set -x; mount; ls -l -d "
    ++ (join (lit " ") (map rstrip_slashes (words files))
        ++ (lit "; find "
            ++ (files ++ (lit " | xargs ls -d -l; find " ++ (files ++ lit " | xargs chsmack")))))

-- `xs == ys`, for two lists of texts
unfoldable pub strs_eq : List Str → List Str → Bool
strs_eq [] [] = true
strs_eq [] (t ∷ ts) = false
strs_eq (s ∷ ss) [] = false
strs_eq (s ∷ ss) (t ∷ ts) = str_eq s t && strs_eq ss ts

-- `output.strip().split('\n')`
abbrev pub lines_of : Str → List Str
lines_of s = split_on 10 (strip s)

unfoldable pub test_smack_labels : M (Unit {0})
unfolding files_of status_command strs_eq
test_smack_labels = do
  a ← act (run (status_command (files_of expected)))
  r ← act (run (lit "chsmack " ++ files_of expected))
  assert_status r.status 0 (
      text (
        lit "status and output: "
        ++ (decimal r.status
            ++ (lit " and " ++ (r.output ++ (lit "\n" ++ (lit "File status:\n" ++ a.output)))))))
  assert_true (strs_eq (lines_of r.output) (lines_of expected))
      (text (lit "File status:\n" ++ a.output))
