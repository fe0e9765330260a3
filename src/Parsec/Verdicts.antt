-- ===== src/Parsec/Verdicts.antt =====
-- When the provider tests pass.
use native.Mathlib.Decide.{ℕ_discrete}
use meta_security.Prelude.{
  ℕ, suc, ◌≡◌, ◌↔◌, ◌⊎◌, ap, sym, subst, ◌∙◌, Bool, true, false, ◌∷◌, some, inl, inr, Result, ok,
  Bool-cases,
}
use meta_security.Text.{Str, is_infix}
use meta_security.Oeqa.{Exception, run, Target, History, M, Passes}
use meta_security.Parsec.Defs.{Host, Service, providers_of, cli_tests}
use meta_security.Parsec.Providers.{provider_test}
use meta_security.Parsec.Fallback.{
  looked, actions, Configured, FallsBack, CliTestsPass, result, attempt, attempt-cases,
  run_test_skipped, run_test_raised, run_test_passed, run_test_failed,
}

-- The provider is configured, and its tests pass.
abbrev pub PassesAsIs : Target → Service → Str → ℕ → Str → History → Type 0
PassesAsIs t s name id extra h = Configured t s name id h × CliTestsPass t id extra (looked s h)

-- The provider is not configured; the fallback configures it, and then its tests pass.
abbrev pub PassesBack : Target → Service → Str → ℕ → Str → M (Unit {0}) → History → Type 0
PassesBack t s name id extra fallback h =
    (¬ Configured t s name id h)
    × (end : History) × FallsBack t s name id fallback h end
    × CliTestsPass t id extra (looked s end)

module _ (host : Host) (t : Target) (s : Service) (prov : Str) (c : ℕ) (p : Str) (n : ℕ)
    (extra : Str) (fallback : M (Unit {0})) (h : History) where
  abbrev outcome : Result Exception Bool
  outcome = (provider_test host s prov (c ∷ p) (suc n) extra fallback t h).0

  passes→included : {b : Bool} → outcome ≡ ok b → is_infix prov (providers_of host) ≡ true
  passes→included e = elim (Bool-cases (is_infix prov (providers_of host))) [
    | inl y ↦ y
    | inr m ↦ cc (e, ap result (run_test_skipped host t s prov c p n extra fallback h m))
  ]

  passes→tests :
      {a b : Bool} {end : History}
      → outcome ≡ ok b
      → attempt t s c p n h fallback t h ≡ (ok a, end)
      → CliTestsPass t (suc n) extra end
  passes→tests {end} e k =
      elim (ℕ_discrete (t end (run (cli_tests (some (suc n)) extra))).status 0) [
        | yes y ↦ y
        | no m ↦ cc (
          e,
          ap result (run_test_failed host t s prov c p n extra fallback h (passes→included e) k m),
        )
      ]

  passes→cases :
      {b : Bool}
      → outcome ≡ ok b
      → PassesAsIs t s (c ∷ p) (suc n) extra h ⊎ PassesBack t s (c ∷ p) (suc n) extra fallback h
  passes→cases e = elim (attempt-cases t s c p n fallback h) [
    | inl (k, a) ↦ inl (k, passes→tests e a)
    | inr (inl (m, end, f, a)) ↦ inr (m, end, f, passes→tests e a)
    | inr (inr (m, f, x, a)) ↦
        cc (e, run_test_raised host t s prov c p n extra fallback h (passes→included e) a)
  ]

  as_is→passes :
      is_infix prov (providers_of host) ≡ true
      → PassesAsIs t s (c ∷ p) (suc n) extra h
      → outcome ≡ ok false
  as_is→passes y (k, q) = elim (attempt-cases t s c p n fallback h) [
    | inl (_, a) ↦ ap result (run_test_passed host t s prov c p n extra fallback h y a q)
    | inr (inl w) ↦ absurd (w.0 k)
    | inr (inr w) ↦ absurd (w.0 k)
  ]

  back→passes :
      is_infix prov (providers_of host) ≡ true
      → PassesBack t s (c ∷ p) (suc n) extra fallback h
      → outcome ≡ ok true
  back→passes y (m, end, f, q) = elim (attempt-cases t s c p n fallback h) [
    | inl (k, _) ↦ absurd (m k)
    | inr (inl (_, end', f', a)) ↦
        let same : end ≡ end' = ap actions (sym f.0 ∙ f'.0) in
        let q' = subst (λ (e : History). CliTestsPass t (suc n) extra (looked s e)) same q in
        ap result (run_test_passed host t s prov c p n extra fallback h y a q')
    | inr (inr w) ↦ absurd (w.1 end f)
  ]

-- A provider test, for a provider with a name and an id that is not 0, passes exactly when the
-- provider is included in the build, and either it is configured, or it is not and the fallback
-- configures it; and the command line tests succeed then.
pub provider_test_lem :
    (host : Host) (t : Target) (s : Service) (prov : Str) (c : ℕ) (p : Str) (n : ℕ) (extra : Str)
    (fallback : M (Unit {0})) (h : History)
    → Passes (provider_test host s prov (c ∷ p) (suc n) extra fallback) t h ↔ (
        (is_infix prov (providers_of host) ≡ true)
        × (PassesAsIs t s (c ∷ p) (suc n) extra h
            ⊎ PassesBack t s (c ∷ p) (suc n) extra fallback h))
provider_test_lem host t s prov c p n extra fallback h = (
  λ (b, e). (
    passes→included host t s prov c p n extra fallback h e,
    passes→cases host t s prov c p n extra fallback h e,
  ),
  λ (y, k). elim k [
    | inl a ↦ (false, as_is→passes host t s prov c p n extra fallback h y a)
    | inr b ↦ (true, back→passes host t s prov c p n extra fallback h y b)
  ],
)
