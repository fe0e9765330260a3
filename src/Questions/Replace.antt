-- ===== src/Questions/Replace.antt =====
-- `xform_file`, where no call fails but `open`, on each of its branches: no questions file, an error
-- behind some lines, a new file.
use meta_security.Prelude.{
  ◌≡◌, ◌≢◌, sym, false, Option, none, some, arith, inl, inr, Result, ok, err, Gen, Bool-cases,
}
use meta_security.Text.{Str, str_eq}
use meta_security.Text.Equality.{str_eq_refl, str_eq→eq}
use meta_security.Questions.Lines.{Error, os_error, add_requires}
use meta_security.Questions.Files.{
  File, Node, file, directory, Fs, Os, find, put, as_file, read_lines, concat, copystat, remove,
  move, xform_file,
}

pub str_eq-ne : (p q : Str) → p ≢ q → str_eq p q ≡ false
str_eq-ne p q n = elim (Bool-cases (str_eq p q)) [
  | inl y ↦ absurd (n (str_eq→eq p q y))
  | inr e ↦ e
]

pub put_self : (p : Str) (n : Option Node) (fs : Fs) → find (put p n fs) p ≡ n
unfolding put find
put_self p n fs = rw (str_eq_refl p)

pub put_other : (p q : Str) (n : Option Node) (fs : Fs) → q ≢ p → find (put p n fs) q ≡ find fs q
unfolding put find
put_other p q n fs h = rw (str_eq-ne q p h)

pub as_file-some : (n : Option Node) (f : File) → as_file n ≡ some f → n ≡ some (file f)
as_file-some none f h = cc
as_file-some (some directory) f h = cc
as_file-some (some (file g)) f h = ground arith

-- A new temporary file has a free name.
abbrev pub IsFresh : Os → Type 0
IsFresh os = (fs : Fs) → find fs (os.temp_name fs) ≡ none

-- The files once the lines are written, and once the new file has taken the place of the old one.
module _ (os : Os) (q d i : Str) (fs : Fs) where
  abbrev pub output : File → Gen Error Str
  output f = add_requires i d (read_lines f.text)

  abbrev pub written : File → Fs
  written f =
      put (os.temp_name fs)
        (some (file (record { text = concat (output f).items; stat = os.temp_stat }))) fs

  abbrev pub replaced : File → Fs
  replaced f = move (os.temp_name fs) q (remove q (copystat q (os.temp_name fs) (written f)))

  pub xform_file_missing :
      as_file (find fs q) ≡ none
      → xform_file os q d i fs ≡ (err (os_error (os.open_error fs q)), fs)
  unfolding xform_file
  xform_file_missing h = rw (h, xform_file)

  pub xform_file_raised :
      {f : File} {e : Error}
      → as_file (find fs q) ≡ some f
      → (output f).stop ≡ some e
      → xform_file os q d i fs ≡ (err e, written f)
  unfolding xform_file
  xform_file_raised h s = ground arith

  pub xform_file_ended :
      {f : File}
      → as_file (find fs q) ≡ some f
      → (output f).stop ≡ none
      → xform_file os q d i fs ≡ (ok tt, replaced f)
  unfolding xform_file
  xform_file_ended h s = ground arith

  -- Where `tmp` is another file, the new text stands under the old name with the old bits and times,
  -- the temporary name is free again, and no other file has changed.
  pub replaced-q :
      (f : File)
      → find fs q ≡ some (file f)
      → os.temp_name fs ≢ q
      → find (replaced f) q ≡ some (file (record { text = concat (output f).items; stat = f.stat }))
  unfolding move remove copystat put find
  replaced-q f h n = ground (
    arith,
    str_eq_refl q,
    str_eq_refl (os.temp_name fs),
    str_eq-ne q (os.temp_name fs) (λ e. n (sym e)),
    str_eq-ne (os.temp_name fs) q n,
  )

  pub replaced-temp :
      (f : File)
      → find fs q ≡ some (file f)
      → os.temp_name fs ≢ q
      → find (replaced f) (os.temp_name fs) ≡ none
  unfolding move
  replaced-temp f h n = put_self (os.temp_name fs) none _

  pub replaced-other :
      (f : File) (p : Str) → p ≢ q → p ≢ os.temp_name fs → find (replaced f) p ≡ find fs p
  unfolding move remove copystat put find
  replaced-other f p n m = ground (arith, str_eq-ne p q n, str_eq-ne p (os.temp_name fs) m)

abbrev pub first : Result Error (Unit {0}) × Fs → Result Error (Unit {0})
first r = r.0
