-- ===== src/Questions/Faults.antt =====
-- `xform_file` where each of its calls of the system may fail. What a failing call leaves is a
-- parameter, as far as it can change the file that it writes to.
use meta_security.Prelude.{◌≡◌, refl, List, Option, none, some, Result, ok, err, Gen}
use meta_security.Text.{Str}
use meta_security.Questions.Lines.{Error, os_error, add_requires}
use meta_security.Questions.Files.{
  Node, file, Fs, Os, find, put, as_file, read_lines, concat, copystat, remove, move, xform_file,
}

-- The text of the `OSError` of each call, if it fails: `NamedTemporaryFile`, writing these lines and
-- closing the file, `copystat`, `remove` and `move`. A write leaves some text in the temporary file,
-- and a move, which copies between two devices, something at its destination.
pub record Faults : Type 0 where
  pub temp_error : Fs → Option Str
  pub write_error : Fs → List Str → Option (Str × Str)
  pub copystat_error : Fs → Option Str
  pub remove_error : Fs → Option Str
  pub move_error : Fs → Option (Str × Option Node)

-- `shutil.move(questions_out.name, qfile)`, and the calls before it, the last one first
unfoldable pub try_move : Faults → Str → Str → Fs → Result Error (Unit {0}) × Fs
unfolding move
try_move faults tmp qfile fs = elim (faults.move_error fs) [
  | none ↦ (ok tt, move tmp qfile fs)
  | some failed ↦ (err (os_error failed.0), put qfile failed.1 fs)
]

unfoldable pub try_remove : Faults → Str → Str → Fs → Result Error (Unit {0}) × Fs
unfolding try_move remove
try_remove faults tmp qfile fs =
    let moved = try_move faults tmp qfile (remove qfile fs) in
    elim (faults.remove_error fs) [ none ↦ moved | some e ↦ (err (os_error e), fs) ]

unfoldable pub try_copystat : Faults → Str → Str → Fs → Result Error (Unit {0}) × Fs
unfolding try_remove copystat
try_copystat faults tmp qfile fs =
    let removed = try_remove faults tmp qfile (copystat qfile tmp fs) in
    elim (faults.copystat_error fs) [ none ↦ removed | some e ↦ (err (os_error e), fs) ]

-- The temporary file with this text.
abbrev pub with_temp : Os → Fs → Str → Fs
with_temp os fs text =
    put (os.temp_name fs) (some (file (record { text = text; stat = os.temp_stat }))) fs

-- The loop, with the file closed behind it if the generator ended.
unfoldable pub try_write : Os → Faults → Str → Fs → Gen Error Str → Result Error (Unit {0}) × Fs
unfolding try_copystat
try_write os faults qfile fs out =
    let written = with_temp os fs (concat out.items) in
    let copied = try_copystat faults (os.temp_name fs) qfile written in
    elim (faults.write_error fs out.items) [
      | some failed ↦ (err (os_error failed.0), with_temp os fs failed.1)
      | none ↦ elim out.stop [ some e ↦ (err e, written) | none ↦ copied ]
    ]

unfoldable pub try_xform_file : Os → Faults → Str → Str → Str → Fs → Result Error (Unit {0}) × Fs
unfolding try_write
try_xform_file os faults qfile distro qlabel fs = elim (as_file (find fs qfile)) [
  | none ↦ (err (os_error (os.open_error fs qfile)), fs)
  | some f ↦
      let run = try_write os faults qfile fs (add_requires qlabel distro (read_lines f.text)) in
      elim (faults.temp_error fs) [ some e ↦ (err (os_error e), fs) | none ↦ run ]
]

-- No call fails.
abbrev pub no_faults : Faults
no_faults = record {
  temp_error = λ fs. none;
  write_error = λ fs ls. none;
  copystat_error = λ fs. none;
  remove_error = λ fs. none;
  move_error = λ fs. none;
}

-- Where no call fails, the run is that of `xform_file`.
pub try_xform_file-no_faults :
    (os : Os) (q d i : Str) (fs : Fs)
    → try_xform_file os no_faults q d i fs ≡ xform_file os q d i fs
unfolding try_xform_file try_write try_copystat try_remove try_move xform_file
try_xform_file-no_faults os q d i fs = refl
