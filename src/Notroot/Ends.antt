-- ===== src/Notroot/Ends.antt =====
-- How many steps a run of the script takes.
use mathlib.Core.Option.{some-injective}
use meta_security.Prelude.{
  ℕ, zero, suc, ◌≤◌, ◌<◌, ◌≡◌, refl, ap, List, [], ◌∷◌, Option, none, some, arith, Result, ok, err,
  inl, inr, Option-cases,
}
use meta_security.Text.{Str}
use meta_security.Text.Numbers.{ℤ, int}
use meta_security.Notroot.Defs.{
  Failure, os_error, other_error, Cred, Kernel, parse_uid, take_label, take_path, or_raised,
  replace_process, handle, State, started, parsed, named, labelled, located, grouped, owned, raised,
  executed, exited, step, Reach, next, run,
}

-- How many steps are left at most.
abbrev steps_left : State → ℕ
steps_left (started argv c) = 8
steps_left (parsed uid argv c) = 7
steps_left (named uid label argv c) = 6
steps_left (labelled uid argv c) = 5
steps_left (located uid path argv c) = 4
steps_left (grouped uid path argv c) = 3
steps_left (owned path argv c) = 2
steps_left (raised e c) = 1
steps_left (executed path argv c) = 0
steps_left (exited status text c) = 0

parse_uid_left : (a : List Str) (c : Cred) → steps_left (parse_uid a c) ≤ 7
parse_uid_left [] c = omega arith
parse_uid_left (prog ∷ []) c = omega arith
parse_uid_left (prog ∷ user ∷ rest) c = go (int user)
  where
    go :
        (r : Option ℤ)
        → steps_left
            (elim r [ some uid ↦ parsed uid (prog ∷ rest) c | none ↦ raised other_error c ])
          ≤ 7
    go none = omega arith
    go (some uid) = omega arith

take_label_left : (uid : ℤ) (a : List Str) (c : Cred) → steps_left (take_label uid a c) ≤ 6
take_label_left uid [] c = omega arith
take_label_left uid (p ∷ []) c = omega arith
take_label_left uid (p ∷ l ∷ r) c = omega arith

take_path_left : (uid : ℤ) (a : List Str) (c : Cred) → steps_left (take_path uid a c) ≤ 4
take_path_left uid [] c = omega arith
take_path_left uid (p ∷ []) c = omega arith
take_path_left uid (p ∷ l ∷ r) c = omega arith

or_raised_left :
    (n : ℕ) (r : Result Failure Cred) (c : Cred) (behind : Cred → State)
    → 1 ≤ n
    → ((c' : Cred) → steps_left (behind c') ≤ n)
    → steps_left (or_raised r c behind) ≤ n
or_raised_left n (ok c') c behind h f = f c'
or_raised_left n (err e) c behind h f = h

replace_left :
    (r : Option Failure) (path : Str) (a : List Str) (c : Cred)
    → steps_left (replace_process r path a c) ≤ 1
replace_left none path a c = omega arith
replace_left (some e) path a c = omega arith

handle_left : (e : Failure) (c : Cred) → steps_left (handle e c) ≡ 0
handle_left (os_error text) c = refl
handle_left other_error c = refl

step_left : (k : Kernel) (s t : State) → step k s ≡ some t → steps_left t < steps_left s
unfolding step
step_left k (started a c) t e =
    omega (arith, parse_uid_left a c, ap steps_left (some-injective _ _ e))
step_left k (parsed uid a c) t e =
    omega (arith, take_label_left uid a c, ap steps_left (some-injective _ _ e))
step_left k (named uid label a c) t e = omega (
  arith,
  or_raised_left 5 (k.write_label label c) c (labelled uid a) (omega arith) (λ _. omega arith),
  ap steps_left (some-injective _ _ e),
)
step_left k (labelled uid a c) t e =
    omega (arith, take_path_left uid a c, ap steps_left (some-injective _ _ e))
step_left k (located uid path a c) t e = omega (
  arith,
  or_raised_left 3 (k.setgid uid c) c (grouped uid path a) (omega arith) (λ _. omega arith),
  ap steps_left (some-injective _ _ e),
)
step_left k (grouped uid path a c) t e = omega (
  arith,
  or_raised_left 2 (k.setuid uid c) c (owned path a) (omega arith) (λ _. omega arith),
  ap steps_left (some-injective _ _ e),
)
step_left k (owned path a c) t e =
    omega (arith, replace_left (k.execv path a c) path a c, ap steps_left (some-injective _ _ e))
step_left k (raised x c) t e = omega (arith, handle_left x c, ap steps_left (some-injective _ _ e))
step_left k (executed path a c) t e = cc
step_left k (exited status text c) t e = cc

module _ (k : Kernel) where
  run_stays : (n : ℕ) (s : State) → step k s ≡ none → run k n s ≡ s
  unfolding run
  run_stays zero s e = refl
  run_stays (suc n) s e = ground (arith, e)

  run_goes : (n : ℕ) (s : State) {t : State} → step k s ≡ some t → run k (suc n) s ≡ run k n t
  unfolding run
  run_goes n s e = ground (arith, e)

  no_steps_left : (s : State) → steps_left s ≤ 0 → step k s ≡ none
  unfolding step
  no_steps_left (started a c) h = absurd (omega (arith, h))
  no_steps_left (parsed uid a c) h = absurd (omega (arith, h))
  no_steps_left (named uid label a c) h = absurd (omega (arith, h))
  no_steps_left (labelled uid a c) h = absurd (omega (arith, h))
  no_steps_left (located uid path a c) h = absurd (omega (arith, h))
  no_steps_left (grouped uid path a c) h = absurd (omega (arith, h))
  no_steps_left (owned path a c) h = absurd (omega (arith, h))
  no_steps_left (raised x c) h = absurd (omega (arith, h))
  no_steps_left (executed path a c) h = refl
  no_steps_left (exited status text c) h = refl

  pub run-Reach :
      (n : ℕ) (s₀ s : State)
      → Reach k s₀ s
      → steps_left s ≤ n
      → Reach k s₀ (run k n s) × (step k (run k n s) ≡ none)
  unfolding run
  run-Reach zero s₀ s r h = (r, no_steps_left s h)
  run-Reach (suc n) s₀ s r h = elim (Option-cases (step k s)) [
    | inl e ↦ rw (run_stays (suc n) s e) (r, e)
    | inr (t, e) ↦
        rw (run_goes n s e) (run-Reach n s₀ t (next r e) (omega (arith, step_left k s t e, h)))
  ]
