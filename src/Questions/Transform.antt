-- ===== src/Questions/Transform.antt =====
-- `xform_file`: what a run does to the questions file, and to all other files.
use meta_security.Prelude.{
  ◌≡◌, ◌≢◌, refl, ap, sym, ◌∙◌, true, none, some, inl, inr, ok, finished, if◌then◌else◌,
  Option-cases, Bool-cases,
}
use meta_security.Text.{Str, str_eq}
use meta_security.Text.Equality.{str_eq_refl, str_eq→eq}
use meta_security.Questions.Files.{
  File, file, Fs, Os, find, as_file, read_lines, concat, xform_file,
}
use meta_security.Questions.Amend.{IsName}
use meta_security.Questions.Replace.{
  IsFresh, output, replaced, replaced-q, replaced-temp, replaced-other, as_file-some, first,
  xform_file_missing, xform_file_raised, xform_file_ended,
}
use meta_security.Questions.Grows.{Grows, add_requires-Grows, Grows-AreFile}
use meta_security.Questions.Newlines.{read_lines-AreFile, read_lines-concat}
use meta_security.Questions.Require.{settled, add_requires-settled, settled-add_requires}
use meta_security.Questions.Distros.{distros_of, with_distro, add_requires-distros_of}

-- What a run that ends has done to the files: `f` was the questions file, and is `g` now. Another
-- run for the question has nothing to do.
pub record Transformed (q d i : Str) (fs fs' : Fs) : Type 0 where
  pub f : File
  pub g : File
  pub before : find fs q ≡ some (file f)
  pub after : find fs' q ≡ some (file g)
  pub stat_kept : g.stat ≡ f.stat
  pub rewritten : g.text ≡ concat (read_lines g.text)
  pub grown : Grows d (read_lines f.text) (read_lines g.text)
  pub required : distros_of i (read_lines g.text) ≡ with_distro d (distros_of i (read_lines f.text))
  pub done : settled i d (read_lines g.text) ≡ true
  pub others : (p : Str) → find fs' p ≡ (if str_eq p q then some (file g) else find fs p)

-- A run that ends.
module _ (os : Os) (fresh : IsFresh os) (q d i : Str) (name : IsName d) (fs : Fs) where
  pub read_lines-output :
      (f : File)
      → (output os q d i fs f).stop ≡ none
      → read_lines (concat (output os q d i fs f).items) ≡ (output os q d i fs f).items
  read_lines-output f s = read_lines-concat _ (
      Grows-AreFile d _ _ name (add_requires-Grows i d (read_lines f.text) s)
        (read_lines-AreFile f.text))

  temp-ne : {f : File} → find fs q ≡ some (file f) → os.temp_name fs ≢ q
  temp-ne h e = cc (fresh fs, ap (find fs) e)

  others-replaced :
      (f : File)
      → find fs q ≡ some (file f)
      → (p : Str) → p ≢ q
      → find (replaced os q d i fs f) p ≡ find fs p
  others-replaced f h p n = elim (Bool-cases (str_eq p (os.temp_name fs))) [
    | inl y ↦
        let e = str_eq→eq p (os.temp_name fs) y in
        rw (e, replaced-temp os q d i fs f h (temp-ne h), fresh fs)
    | inr m ↦ replaced-other os q d i fs f p n (λ e. cc (ap (str_eq p) e, str_eq_refl p))
  ]

  pub find-replaced :
      (f : File)
      → find fs q ≡ some (file f)
      → (p : Str)
      → find (replaced os q d i fs f) p ≡ (
          if str_eq p q
          then some (file (record { text = concat (output os q d i fs f).items; stat = f.stat }))
          else find fs p)
  find-replaced f h p = elim (Bool-cases (str_eq p q)) [
    | inl y ↦ rw (y, str_eq→eq p q y, replaced-q os q d i fs f h (temp-ne h))
    | inr n ↦ rw n (others-replaced f h p (λ e. cc (ap (str_eq p) e, str_eq_refl p)))
  ]

  replaced-Transformed :
      (f : File)
      → find fs q ≡ some (file f)
      → (output os q d i fs f).stop ≡ none
      → Transformed q d i fs (replaced os q d i fs f)
  replaced-Transformed f h s = record {
    f = f;
    g = record { text = concat (output os q d i fs f).items; stat = f.stat };
    before = h;
    after = replaced-q os q d i fs f h (temp-ne h);
    stat_kept = refl;
    rewritten = ap concat (sym (read_lines-output f s));
    grown = rw (read_lines-output f s) (add_requires-Grows i d (read_lines f.text) s);
    required = rw (read_lines-output f s) (add_requires-distros_of i d name (read_lines f.text) s);
    done = rw (read_lines-output f s) (add_requires-settled i d name (read_lines f.text) s);
    others = find-replaced f h;
  }

  -- Let new temporary files have free names and the distribution be a word without a colon. A run
  -- that ends replaces the questions file by one with the same permission bits and times, in which
  -- REQUIRE_DISTRO lines that lacked the name have been extended by it and nothing else has changed.
  -- The first question of the name, if it has such a line of its own, requires the distributions that
  -- it required before and this one; without one it has none now either. All other files are as they
  -- were.
  pub xform_file-Transformed :
      (xform_file os q d i fs).0 ≡ ok tt → Transformed q d i fs (xform_file os q d i fs).1
  xform_file-Transformed h = elim (Option-cases (as_file (find fs q))) [
    | inl e ↦ cc (ap first (xform_file_missing os q d i fs e))
    | inr (f, e) ↦ elim (Option-cases (output os q d i fs f).stop) [
      | inl s ↦
          rw (xform_file_ended os q d i fs e s)
            (replaced-Transformed f (as_file-some (find fs q) f e) s)
      | inr (x, s) ↦ cc (ap first (xform_file_raised os q d i fs e s))
    ]
  ]

  xform_file_satisfied :
      (f : File)
      → find fs q ≡ some (file f)
      → settled i d (read_lines f.text) ≡ true
      → ((xform_file os q d i fs).0 ≡ ok tt)
        × (find (xform_file os q d i fs).1 q
            ≡ some (file (record f { text = concat (read_lines f.text) })))
  xform_file_satisfied f h r =
      let e : output os q d i fs f ≡ finished (read_lines f.text) =
        settled-add_requires i d (read_lines f.text) r in
      let o : as_file (find fs q) ≡ some f = rw h in
      rw (xform_file_ended os q d i fs o (rw e), replaced-q os q d i fs f h (temp-ne h), e)
        (refl, refl)

-- Let new temporary files have free names and the distribution be a word without a colon. After a
-- run that ends, a second run for the same question ends too, and leaves every file as the first
-- run left it.
pub xform_file_twice :
    (os : Os) (q d i : Str) (fs : Fs)
    → IsFresh os
    → IsName d
    → (xform_file os q d i fs).0 ≡ ok tt
    → let fs' = (xform_file os q d i fs).1 in
      ((xform_file os q d i fs').0 ≡ ok tt)
      × ((p : Str) → find (xform_file os q d i fs').1 p ≡ find fs' p)
xform_file_twice os q d i fs fresh name h =
    let fs' = (xform_file os q d i fs).1 in
    let t = xform_file-Transformed os fresh q d i name fs h in
    let (done, node) = xform_file_satisfied os fresh q d i name fs' t.g t.after t.done in
    (
      done,
      λ p. elim (Bool-cases (str_eq p q)) [
        | inl y ↦ rw (str_eq→eq p q y, node, t.after, ← t.rewritten)
        | inr n ↦
            let same = (xform_file-Transformed os fresh q d i name fs' done).others p in same ∙ rw n
      ],
    )
