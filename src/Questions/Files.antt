-- ===== src/Questions/Files.antt =====
-- The part of set_required_questions.py that works on files: `xform_file`, `check_args` and
-- `main`. Every path is either free, a directory or a text file; what the operating system chooses
-- (the working directory, the name of a new temporary file, the text of an `OSError`) is a
-- parameter. Here access is never denied and a device is never full; the run in which any call may
-- fail is in Faults.antt.
use meta_security.Prelude.{
  ℕ, Bool, true, false, ◌&&◌, List, [], ◌∷◌, ◌++◌, Option, none, some, Result, ok, err, ◌==◌,
  if◌then◌else◌,
}
use meta_security.Text.{Str, str_eq, cons_head}
use meta_security.Questions.Lines.{Error, os_error, add_requires}

-- A text file: what it holds, and the permission bits and times that `copystat` copies.
pub record File : Type 0 where
  pub text : Str
  pub stat : ℕ

pub data Node : Type 0 where
  file : File → Node
  directory : Node

-- The changes of the files, the last one first: each gives a path its node, or frees it.
abbrev pub Fs : Type 0
Fs = List (Str × Option Node)

unfoldable pub find : Fs → Str → Option Node
find [] p = none
find ((q, n) ∷ fs) p = if str_eq p q then n else find fs p

pub record Os : Type 0 where
  pub cwd : Str
  pub temp_name : Fs → Str
  pub temp_stat : ℕ
  pub open_error : Fs → Str → Str

unfoldable pub put : Str → Option Node → Fs → Fs
put p n fs = (p, n) ∷ fs

abbrev pub as_file : Option Node → Option File
as_file (some (file f)) = some f
as_file (some directory) = none
as_file none = none

-- Reading in text mode: `"\r\n"` and `"\r"` are read as `"\n"`. The flag is set behind a `"\r"`.
unfoldable pub newlines_from : Bool → Str → Str
newlines_from cr [] = []
newlines_from cr (c ∷ s) =
    let behind = newlines_from true s in
    let rest = newlines_from false s in
    if c == 13 then 10 ∷ behind else if c == 10 && cr then rest else c ∷ rest

-- The lines of a text, each with its `"\n"`.
unfoldable pub split_lines : Str → List Str
split_lines [] = []
split_lines (c ∷ s) =
    let rest = split_lines s in if c == 10 then (10 ∷ []) ∷ rest else cons_head c rest

-- What `for l in open(path)` runs through.
unfoldable pub read_lines : Str → List Str
unfolding newlines_from split_lines
read_lines s = split_lines (newlines_from false s)

unfoldable pub concat : List Str → Str
concat [] = []
concat (l ∷ ls) = l ++ concat ls

-- `shutil.copystat(src, dst)`, for two files
unfoldable pub copystat : Str → Str → Fs → Fs
copystat src dst fs = elim (as_file (find fs src)) [
  | none ↦ fs
  | some f ↦ elim (as_file (find fs dst)) [
    | none ↦ fs
    | some g ↦ put dst (some (file (record g { stat = f.stat }))) fs
  ]
]

-- `os.remove(p)`
unfoldable pub remove : Str → Fs → Fs
remove p fs = put p none fs

-- `shutil.move(src, dst)`, to a path that is free
unfoldable pub move : Str → Str → Fs → Fs
move src dst fs = put src none (put dst (find fs src) fs)

unfoldable pub xform_file : Os → Str → Str → Str → Fs → Result Error (Unit {0}) × Fs
xform_file os qfile distro qlabel fs = elim (as_file (find fs qfile)) [
  | none ↦ (err (os_error (os.open_error fs qfile)), fs)
  | some f ↦
      let tmp = os.temp_name fs in
      let out = add_requires qlabel distro (read_lines f.text) in
      let written =
        put tmp (some (file (record { text = concat out.items; stat = os.temp_stat }))) fs in
      elim out.stop [
        | some e ↦ (err e, written)
        | none ↦ (ok tt, move tmp qfile (remove qfile (copystat qfile tmp written)))
      ]
]
