-- ===== src/Questions/Lost.antt =====
-- What a run of `xform_file` that raises has done to the files, whichever of its calls failed.
use meta_security.Prelude.{◌≡◌, ◌≢◌, ◌⊎◌, Option, none, some, Result, ok, Gen}
use meta_security.Text.{Str}
use meta_security.Questions.Lines.{Error, add_requires}
use meta_security.Questions.Files.{File, Node, file, Fs, Os, find, read_lines, concat}
use meta_security.Questions.Faults.{Faults, with_temp}

-- No file but the temporary one has changed.
abbrev pub IsUnchanged : Str → Fs → Fs → Type 0
IsUnchanged tmp fs fs' = (p : Str) → p ≢ tmp → find fs' p ≡ find fs p

-- The questions file is removed, and in its place stands what a failing move has left. The temporary
-- file has all new lines and the old bits and times, and no other file has changed.
pub record IsLost (faults : Faults) (tmp q d i : Str) (fs fs' : Fs) : Type 0 where
  pub f : File
  pub was : find fs q ≡ some (file f)
  pub ended : (add_requires i d (read_lines f.text)).stop ≡ none
  pub moving : Fs
  pub failed : Str × Option Node
  pub move_failed : faults.move_error moving ≡ some failed
  pub left : find fs' q ≡ failed.1
  pub saved :
      find fs' tmp
      ≡ some (
          file
            (record { text = concat (add_requires i d (read_lines f.text)).items; stat = f.stat }))
  pub others : (p : Str) → p ≢ tmp → p ≢ q → find fs' p ≡ find fs p

module _ (faults : Faults) (tmp q d i : Str) (fs : Fs) (f : File) where
  abbrev Spoils : Result Error (Unit {0}) × Fs → Type 0
  Spoils r = r.0 ≢ ok tt → IsUnchanged tmp fs r.1 ⊎ IsLost faults tmp q d i fs r.1

  -- The state in which the temporary file is complete.
  record IsCopied (c : Fs) : Type 0 where
    temp :
        find c tmp
        ≡ some (
            file (record {
              text = concat (add_requires i d (read_lines f.text)).items;
              stat = f.stat;
            }))
    rest : IsUnchanged tmp fs c

module _ (os : Os) (faults : Faults) (q d i : Str) (fs : Fs) (f : File)
    (was : find fs q ≡ some (file f)) (n : os.temp_name fs ≢ q) where
  abbrev out : Gen Error Str
  out = add_requires i d (read_lines f.text)

  abbrev written : Fs
  written = with_temp os fs (concat out.items)
