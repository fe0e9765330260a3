-- ===== src/Questions/Satisfied.antt =====
-- A question that a run of `main` is to change, and what later and earlier runs of `xform_file` leave
-- of that.
use meta_security.Prelude.{◌≡◌, refl, ap, sym, ◌∙◌, Option, some, inl, inr, Bool-cases}
use meta_security.Text.{Str, str_eq}
use meta_security.Text.Equality.{str_eq→eq}
use meta_security.Questions.Files.{File, Node, file, Fs, find, read_lines}
use meta_security.Questions.Amend.{IsName}
use meta_security.Questions.Distros.{distros_of, with_distro}
use meta_security.Questions.Keep.{Keeps, Keeps-before, Keeps-behind, Grows-distros_of}
use meta_security.Questions.Transform.{Transformed}

-- The first question of the name in the file `p`, if it has a REQUIRE_DISTRO line of its own, requires
-- in the files `fs'` what it required in `fs`, and this distribution.
abbrev pub Satisfied : Str → Fs → Fs → Str → Str → Type 0
Satisfied d fs fs' p i =
    (f : File) × (g : File) × (find fs p ≡ some (file f))
    × (find fs' p ≡ some (file g))
    × (distros_of i (read_lines g.text) ≡ with_distro d (distros_of i (read_lines f.text)))

-- All that a file may have lost or won between two states.
abbrev Kept : Str → Fs → Fs → Str → Str → Type 0
Kept d fs fs' p j =
    (f : File) × (g : File) × (find fs p ≡ some (file f))
    × (find fs' p ≡ some (file g))
    × Keeps d (distros_of j (read_lines f.text)) (distros_of j (read_lines g.text))

file-injective : (f g : File) → ◌≡◌ {A = Option Node} (some (file f)) (some (file g)) → f ≡ g
file-injective f g e = cc

module _ (q d i p j : Str) (fs fs' : Fs) (name : IsName d) (t : Transformed q d i fs fs') where
  -- A file of the old state, or of the new one, in both.
  Transformed-Kept_new : (g : File) → find fs' p ≡ some (file g) → Kept d fs fs' p j
  Transformed-Kept_new g e = elim (Bool-cases (str_eq p q)) [
    | inl y ↦
        let z = str_eq→eq p q y in
        (
          t.f,
          t.g,
          ap (find fs) z ∙ t.before,
          ap (find fs') z ∙ t.after,
          Grows-distros_of j d (read_lines t.f.text) (read_lines t.g.text) name t.grown,
        )
    | inr n ↦ (g, g, sym (t.others p ∙ (rw n refl)) ∙ e, e, inl refl)
  ]

  Transformed-Kept_old : (f : File) → find fs p ≡ some (file f) → Kept d fs fs' p j
  Transformed-Kept_old f e = elim (Bool-cases (str_eq p q)) [
    | inl y ↦
        let z = str_eq→eq p q y in
        (
          t.f,
          t.g,
          ap (find fs) z ∙ t.before,
          ap (find fs') z ∙ t.after,
          Grows-distros_of j d (read_lines t.f.text) (read_lines t.g.text) name t.grown,
        )
    | inr n ↦ (f, f, e, t.others p ∙ (rw n e), inl refl)
  ]

  pub Satisfied-before : (fs'' : Fs) → Satisfied d fs' fs'' p j → Satisfied d fs fs'' p j
  Satisfied-before fs'' (g, h, a, b, e) =
      let (f, g', x, y, k) = Transformed-Kept_new g a in
      let same = file-injective g g' (sym a ∙ y) in
      (
        f,
        h,
        x,
        b,
        Keeps-before d _ _ _ k
            (e ∙ ap (λ (u : File). with_distro d (distros_of j (read_lines u.text))) same),
      )

  pub Satisfied-behind : (fs₀ : Fs) → Satisfied d fs₀ fs p j → Satisfied d fs₀ fs' p j
  Satisfied-behind fs₀ (f, g, a, b, e) =
      let (g', h, x, y, k) = Transformed-Kept_old g b in
      let same = file-injective g g' (sym b ∙ x) in
      (
        f,
        h,
        a,
        y,
        Keeps-behind d _ _ _ (ap (λ (u : File). distros_of j (read_lines u.text)) (sym same) ∙ e) k,
      )
