-- ===== src/Questions/Run.antt =====
-- `main`: what a whole run does.
use meta_security.Prelude.{
  ◌≡◌, ◌⊎◌, refl, ap, sym, subst, ◌∙◌, true, List, [], ◌∷◌, Option, none, some, arith, inl, inr,
  Result, ok, err, All,
}
use meta_security.Text.{Str}
use meta_security.Questions.Lines.{Error, get_config}
use meta_security.Questions.Files.{File, file, Fs, Os, find, read_lines, xform_file}
use meta_security.Questions.Script.{
  Args, absolute, check_args, questions_file, xform_all, transform, transform_reported, main,
}
use meta_security.Questions.Amend.{IsName}
use meta_security.Questions.Replace.{IsFresh, first}
use meta_security.Questions.Satisfied.{Satisfied, Satisfied-before, Satisfied-behind}
use meta_security.Questions.Transform.{xform_file-Transformed}

Result-ok : (r : Result Error (Unit {0})) → (r ≡ ok tt) ⊎ ((e : Error) × (r ≡ err e))
Result-ok (ok a) = inl refl
Result-ok (err e) = inr (e, refl)

-- A round that ends hands its files to the next one, and one that raises ends the loop.
module _ (os : Os) (args : Args) (q i : Str) (rest : List (Str × Str)) (stop : Option Error)
    (fs : Fs) where
  abbrev round : Result Error (Unit {0}) × Fs
  round = xform_file os (questions_file args q) args.distro i fs

  pub xform_all_ended :
      round.0 ≡ ok tt
      → xform_all os args ((q, i) ∷ rest) stop fs ≡ xform_all os args rest stop round.1
  unfolding xform_all
  xform_all_ended h = ground arith

  xform_all_raised :
      {e : Error} → round.0 ≡ err e → xform_all os args ((q, i) ∷ rest) stop fs ≡ (err e, round.1)
  unfolding xform_all
  xform_all_raised h = ground arith

-- All questions that the pairs name are, each in its file.
abbrev pub AllSatisfied : Args → Fs → Fs → List (Str × Str) → Type 0
AllSatisfied args fs fs' =
    All (λ pair. Satisfied args.distro fs fs' (questions_file args pair.0) pair.1)

All-map :
    {A : Type 0} (P Q : A → Type 0) (xs : List A) → ((x : A) → P x → Q x) → All P xs → All Q xs
All-map P Q [] h a = tt
All-map P Q (x ∷ xs) h (a, rest) = (h x a, All-map P Q xs h rest)

xform_all_stopped :
    (os : Os) (args : Args) (stop : Option Error) (fs : Fs)
    → (xform_all os args [] stop fs).0 ≡ ok tt
    → stop ≡ none
unfolding xform_all
xform_all_stopped os args none fs h = refl
xform_all_stopped os args (some e) fs h = cc

module _ (os : Os) (fresh : IsFresh os) (args : Args) (name : IsName args.distro) where
  -- The rounds of a loop that ends keep what an earlier one has established.
  xform_all-Satisfied :
      (pairs : List (Str × Str)) (stop : Option Error) (p j : Str) (fs₀ fs : Fs)
      → (xform_all os args pairs stop fs).0 ≡ ok tt
      → Satisfied args.distro fs₀ fs p j
      → Satisfied args.distro fs₀ (xform_all os args pairs stop fs).1 p j
  unfolding xform_all
  xform_all-Satisfied [] none p j fs₀ fs h s = s
  xform_all-Satisfied [] (some e) p j fs₀ fs h s = s
  xform_all-Satisfied ((q, i) ∷ rest) stop p j fs₀ fs h s =
      let qf = questions_file args q in
      let fs' = (xform_file os qf args.distro i fs).1 in
      elim (Result-ok (xform_file os qf args.distro i fs).0) [
        | inl y ↦
            let e = xform_all_ended os args q i rest stop fs y in
            let t = xform_file-Transformed os fresh qf args.distro i name fs y in
            rw e (
              xform_all-Satisfied rest stop p j fs₀ fs' (ap first (sym e) ∙ h)
                (Satisfied-behind qf args.distro i p j fs fs' name t fs₀ s))
        | inr (x, y) ↦ cc (h, ap first (xform_all_raised os args q i rest stop fs y))
      ]

  xform_all-AllSatisfied :
      (pairs : List (Str × Str)) (stop : Option Error) (fs : Fs)
      → (xform_all os args pairs stop fs).0 ≡ ok tt
      → (stop ≡ none) × AllSatisfied args fs (xform_all os args pairs stop fs).1 pairs
  unfolding xform_all
  xform_all-AllSatisfied [] stop fs h = (xform_all_stopped os args stop fs h, tt)
  xform_all-AllSatisfied ((q, i) ∷ rest) stop fs h =
      let qf = questions_file args q in
      let fs' = (xform_file os qf args.distro i fs).1 in
      elim (Result-ok (xform_file os qf args.distro i fs).0) [
        | inl y ↦
            let e = xform_all_ended os args q i rest stop fs y in
            let t = xform_file-Transformed os fresh qf args.distro i name fs y in
            let h' = ap first (sym e) ∙ h in
            let end = (xform_all os args rest stop fs').1 in
            let (stopped, all) = xform_all-AllSatisfied rest stop fs' h' in
            (
              stopped,
              subst (λ (u : Fs). AllSatisfied args fs u ((q, i) ∷ rest))
                  (ap (λ (r : Result Error (Unit {0}) × Fs). r.1) (sym e))
                  (
                    xform_all-Satisfied rest stop qf i fs fs' h'
                        (t.f, t.g, t.before, t.after, t.required),
                    All-map
                        (λ (pair : Str × Str).
                          Satisfied args.distro fs' end (questions_file args pair.0) pair.1)
                        (λ (pair : Str × Str).
                          Satisfied args.distro fs end (questions_file args pair.0) pair.1)
                        rest
                        (λ pair s.
                          Satisfied-before qf args.distro i (questions_file args pair.0) pair.1 fs
                            fs' name t end s)
                        all,
                  ),
            )
        | inr (x, y) ↦ cc (h, ap first (xform_all_raised os args q i rest stop fs y))
      ]

-- A run that reports nothing has transformed the files to the end.
main_silent :
    (os : Os) (args : Args) (fs : Fs)
    → (main os args fs).exit ≡ none
    → (main os args fs).traces ≡ []
    → ((transform os (absolute os args) fs).0 ≡ ok tt)
      × ((main os args fs).fs ≡ (transform os (absolute os args) fs).1)
unfolding main transform_reported check_args
main_silent os args fs h t = ground arith

pub transform-xform_all :
    (os : Os) (args : Args) (fs : Fs) (config : File)
    → find fs args.config_file ≡ some (file config)
    → let pairs = get_config (read_lines config.text) in
      transform os args fs ≡ xform_all os args pairs.items pairs.stop fs
unfolding transform
transform-xform_all os args fs config c = rw (transform, c)

-- Let new temporary files have free names, the distribution be a word without a colon, and the
-- configuration file exist. A run that neither exits nor prints a traceback has accepted every line
-- of the configuration. Behind it, for each pair of the configuration, the first question of the name
-- in its file, if it has a REQUIRE_DISTRO line of its own, requires the distributions that it required
-- before the run, and this one.
pub main-AllSatisfied :
    (os : Os) (fresh : IsFresh os) (args : Args) (name : IsName args.distro) (fs : Fs)
    (config : File)
    → find fs (absolute os args).config_file ≡ some (file config)
    → (main os args fs).exit ≡ none
    → (main os args fs).traces ≡ []
    → let pairs = get_config (read_lines config.text) in
      (pairs.stop ≡ none) × AllSatisfied (absolute os args) fs (main os args fs).fs pairs.items
main-AllSatisfied os fresh args name fs config c h t =
    let a = absolute os args in
    let pairs = get_config (read_lines config.text) in
    let (done, files) = main_silent os args fs h t in
    let e = transform-xform_all os a fs config c in
    rw (files, e)
      (xform_all-AllSatisfied os fresh a name pairs.items pairs.stop fs (ap first (sym e) ∙ done))

-- With `--debug` no run exits with a message, and every run transforms the files, also one whose
-- arguments `check_args` refuses.
pub main_debug :
    (os : Os) (args : Args) (fs : Fs)
    → args.debug ≡ true
    → ((main os args fs).exit ≡ none)
      × ((main os args fs).fs ≡ (transform os (absolute os args) fs).1)
unfolding main transform_reported check_args
main_debug os args fs b = ground arith
