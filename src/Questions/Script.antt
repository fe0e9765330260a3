-- ===== src/Questions/Script.antt =====
-- The command of set_required_questions.py: `check_args` and `main`, with the path functions of
-- `os.path` that they call. The arguments are those that `handle_args` returns.
use mathlib.Core.List.{reverse}
use meta_security.Prelude.{
  Bool, true, false, ◌&&◌, ◌||◌, not, List, [], ◌∷◌, ◌++◌, Option, none, some, Result, ok, err,
  if◌then◌else◌,
}
use meta_security.Text.{Str, lit, str_eq, starts_with, join, split_on}
use meta_security.Questions.Lines.{Error, value_error, os_error, get_config}
use meta_security.Questions.Files.{
  Os, Fs, Node, file, directory, find, as_file, read_lines, xform_file,
}

ends_with : Str → Str → Bool
ends_with [] end = str_eq [] end
ends_with (c ∷ s) end = str_eq (c ∷ s) end || ends_with s end

-- `os.path.join(a, b)`
unfoldable pub join_path : Str → Str → Str
unfolding ends_with
join_path a b =
    if starts_with b (lit "/")
    then b
    else if str_eq a [] || ends_with a (lit "/")
    then a ++ b
    else a ++ (lit "/" ++ b)

-- One component of `os.path.normpath`, onto the components before it, the last one first.
norm_step : Bool → List Str → Str → List Str
norm_step rooted [] c =
    if str_eq c [] || str_eq c (lit ".") || str_eq c (lit "..") && rooted then [] else c ∷ []
norm_step rooted (d ∷ ds) c =
    if str_eq c [] || str_eq c (lit ".")
    then d ∷ ds
    else if not (str_eq c (lit "..")) || str_eq d (lit "..")
    then c ∷ d ∷ ds
    else ds

norm_parts : Bool → List Str → List Str → List Str
unfolding norm_step
norm_parts rooted ds [] = reverse ds
norm_parts rooted ds (c ∷ cs) = norm_parts rooted (norm_step rooted ds c) cs

-- The slashes that a normalised path keeps in front: POSIX gives two a meaning of their own.
root : Str → Str
root p =
    if starts_with p (lit "//") && not (starts_with p (lit "///"))
    then lit "//"
    else if starts_with p (lit "/")
    then lit "/"
    else []

or_dot : Str → Str
or_dot [] = lit "."
or_dot (c ∷ p) = c ∷ p

-- `os.path.abspath(p)`
unfoldable pub abspath : Os → Str → Str
unfolding join_path norm_parts root or_dot
abspath os p =
    let q = if starts_with p (lit "/") then p else join_path os.cwd p in
    or_dot (root q ++ join (lit "/") (norm_parts (starts_with q (lit "/")) [] (split_on b'/' q)))

pub record Args : Type 0 where
  pub config_file : Str
  pub questions_dir : Str
  pub distro : Str
  pub debug : Bool

-- `os.path.isdir`, `os.path.isfile`
abbrev is_directory : Option Node → Bool
is_directory (some directory) = true
is_directory (some (file f)) = false
is_directory none = false

abbrev is_file : Option Node → Bool
is_file (some directory) = false
is_file (some (file f)) = true
is_file none = false

abbrev pub absolute : Os → Args → Args
absolute os args = record args {
  config_file = abspath os args.config_file;
  questions_dir = abspath os args.questions_dir;
}

-- The arguments are changed in place, also where an error is raised.
unfoldable pub check_args : Os → Args → Fs → Result Error (Unit {0}) × Args
check_args os args fs =
    let a = absolute os args in
    if not (is_directory (find fs a.questions_dir))
    then (
      err (
          value_error (
            lit "Specified Questions directory "
            ++ (a.questions_dir ++ lit " does not exist or is not a directory."))),
      a,
    )
    else if not (is_file (find fs a.config_file))
    then (
      err (
          value_error
            (lit "Specified configuration file " ++ (a.config_file ++ lit " not found."))),
      a,
    )
    else (ok tt, a)

-- `os.path.join(opts.questions_dir, qfile + ".txt")`
unfoldable pub questions_file : Args → Str → Str
unfolding join_path
questions_file args qfile = join_path args.questions_dir (qfile ++ lit ".txt")

-- The loop of `main` over what `get_config` yields. The error that ends the generator is raised
-- when the loop asks for the next pair.
unfoldable pub xform_all :
    Os → Args → List (Str × Str) → Option Error → Fs → Result Error (Unit {0}) × Fs
unfolding questions_file
xform_all os args [] none fs = (ok tt, fs)
xform_all os args [] (some e) fs = (err e, fs)
xform_all os args ((qfile, qlabel) ∷ rest) stop fs =
    let (r, fs') = xform_file os (questions_file args qfile) args.distro qlabel fs in
    elim r [ err e ↦ (err e, fs') | ok _ ↦ xform_all os args rest stop fs' ]

-- The body of the second `try` of `main`.
unfoldable pub transform : Os → Args → Fs → Result Error (Unit {0}) × Fs
unfolding xform_all
transform os args fs = elim (as_file (find fs args.config_file)) [
  | none ↦ (err (os_error (os.open_error fs args.config_file)), fs)
  | some config ↦
      let pairs = get_config (read_lines config.text) in xform_all os args pairs.items pairs.stop fs
]

-- How a run ends: the text that `sys.exit` was given, if it was called, the exceptions whose
-- traceback was printed, and the files.
pub record Run : Type 0 where
  pub exit : Option Str
  pub traces : List Error
  pub fs : Fs

abbrev pub fatal : Error → Str
fatal (value_error m) = lit "Fatal error:\n" ++ m
fatal (os_error m) = lit "Fatal error reading or writing file:\n" ++ m

-- An `except` clause of `main`: with `--debug` it prints a traceback, and the run goes on.
abbrev pub report : Bool → Error → Fs → Run
report true e fs = record { exit = none; traces = e ∷ []; fs = fs }
report false e fs = record { exit = some (fatal e); traces = []; fs = fs }

-- The second `try`, behind the tracebacks that are printed already.
unfoldable pub transform_reported : Os → Args → Fs → Run
unfolding transform
transform_reported os args fs =
    let (r, fs') = transform os args fs in
    elim r [
      | ok _ ↦ record { exit = none; traces = []; fs = fs' }
      | err e ↦ report args.debug e fs'
    ]

unfoldable pub main : Os → Args → Fs → Run
unfolding transform_reported check_args
main os args fs =
    let (r, a) = check_args os args fs in
    let run = transform_reported os a fs in
    elim r [
      | ok _ ↦ run
      | err e ↦ if a.debug then record run { traces = e ∷ run.traces } else report false e fs
    ]
