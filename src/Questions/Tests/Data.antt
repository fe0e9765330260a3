-- ===== src/Questions/Tests/Data.antt =====
-- A small installation: a questions file, a configuration, and an operating system whose temporary
-- names are longer than every path in use.
use meta_security.Prelude.{
  ℕ, zero, suc, ◌+◌, ◌<◌, ◌≡◌, refl, true, false, [], ◌∷◌, ◌++◌, none, some, ap, arith, length,
}
use meta_security.Text.{
  Str, lit, str_eq, is_space, starts_with, strip, split_on, words, rstrip, mem, join,
}
use meta_security.Text.Equality.{str_eq→eq}
use meta_security.Questions.Lines.{
  get_config, add_requires, names_label, is_require, check_contains, amend, add_to_require,
  is_label, coordinates, config_entry,
}
use meta_security.Questions.Files.{
  File, file, directory, Fs, Os, find, put, read_lines, split_lines, newlines_from, concat,
  xform_file, copystat, remove, move,
}
use meta_security.Questions.Script.{
  Args, Run, main, check_args, abspath, join_path, questions_file, xform_all, transform,
  transform_reported,
}
use meta_security.Questions.Amend.{IsName}
use meta_security.Questions.Replace.{IsFresh}

-- The code points of all paths together.
pub total : Fs → ℕ
total [] = 0
total ((p, n) ∷ fs) = length p + total fs

pub xs : ℕ → Str
xs zero = []
xs (suc n) = b'x' ∷ xs n

length-xs : (n : ℕ) → length (xs n) ≡ n
unfolding xs
length-xs zero = refl
length-xs (suc n) = omega (arith, length-xs n)

find_long : (fs : Fs) (p : Str) → total fs < length p → find fs p ≡ none
unfolding find total
find_long [] p h = refl
find_long ((q, n) ∷ fs) p h =
    ground (arith, find_long fs p, λ (e : str_eq p q ≡ true). ap length (str_eq→eq p q e))

abbrev pub os : Os
os = record {
  cwd = lit "/w";
  temp_name = λ fs. xs (suc (total fs));
  temp_stat = 0;
  open_error = λ fs p. lit "no such file " ++ p;
}

pub os-IsFresh : IsFresh os
os-IsFresh fs = find_long fs (xs (suc (total fs))) (omega (arith, length-xs (suc (total fs))))

abbrev pub yocto : Str
yocto = lit "Yocto"

pub yocto-IsName : IsName yocto
unfolding lit is_space
yocto-IsName = ground arith

abbrev pub questions : File
questions = record {
  text =
      lit
        "FILE: A\nLABEL: one\nREQUIRE_DISTRO: RH SE\nQUESTION: x\n\nLABEL: two\nREQUIRE_DISTRO: DB\n";
  stat = 7;
}

abbrev pub amended : File
amended = record questions {
  text =
      lit
        "FILE: A\nLABEL: one\nREQUIRE_DISTRO: RH SE\nQUESTION: x\n\nLABEL: two\nREQUIRE_DISTRO: DB Yocto\n";
}

abbrev pub config : File
config = record { text = lit "# Q\nA.two=\"Y\"\n"; stat = 1 }

abbrev pub fs : Fs
fs =
    (lit "/w/q", some directory)
    ∷ (lit "/w/q/A.txt", some (file questions))
    ∷ (lit "/w/config", some (file config))
    ∷ []

abbrev pub args : Args
args = record {
  config_file = lit "config";
  questions_dir = lit "./x/../q";
  distro = yocto;
  debug = false;
}

-- The definitions that a run computes with.
unfoldable pub run : Args → Run
unfolding main transform_reported transform xform_all check_args questions_file abspath join_path
    join xform_file get_config config_entry coordinates add_requires names_label add_to_require
    is_label is_require check_contains amend read_lines split_lines newlines_from concat copystat
    remove move put find total xs lit str_eq starts_with split_on strip words rstrip mem is_space
run a = main os a fs

-- The question `two` of `A.txt` gets the name, and keeps its permission bits and times.
run-args :
    ((run args).exit ≡ none)
    × (find (run args).fs (lit "/w/q/A.txt") ≡ some (file amended))
    × (find (run args).fs (lit "/w/config") ≡ some (file config))
unfolding run
run-args = (refl, refl, refl)

-- A directory that is missing ends the run, and with `--debug` only prints a traceback.
run_missing :
    ((run (record args { questions_dir = lit "gone" })).exit
      ≡ some (
          lit
            "Fatal error:\nSpecified Questions directory /w/gone does not exist or is not a directory."))
    × ((run (record args { questions_dir = lit "gone"; debug = true })).exit ≡ none)
unfolding run
run_missing = (refl, refl)
