-- ===== src/Parsec/Restored.antt =====
-- What a provider test leaves of the configuration of Parsec, whether it passes or not.
use meta_security.Prelude.{
  ℕ, suc, ◌≡◌, ◌⊎◌, refl, ap, Bool, true, false, [], ◌∷◌, ◌++◌, inl, inr, ok, err, some, Bool-cases,
}
use native.Mathlib.Decide.{ℕ_discrete}
use meta_security.Text.{Str, is_infix}
use meta_security.Oeqa.{Exception, run, Target, History, M}
use meta_security.Parsec.Defs.{Host, Service, providers_of, cli_tests}
use meta_security.Parsec.Providers.{provider_test}
use meta_security.Parsec.Fallback.{
  looked, actions, result, Configured, FallsBack, CliTestsPass, restored, attempt, attempt-cases,
  run_test_raised, run_test_passed, run_test_failed, run_test_skipped,
}

-- The actions of a test that passes: those up to the provider being found, in the second case by the
-- fallback, then the command line tests, and then the original configuration and a reload.
abbrev pub IsRestored :
    Target → Service → Str → ℕ → Str → M (Unit {0}) → History → Bool → History → Type 0
IsRestored t s name id extra fallback h false r =
    Configured t s name id h
    × CliTestsPass t id extra (looked s h)
    × (r ≡ restored s id extra (looked s h))
IsRestored t s name id extra fallback h true r =
    (end : History) × FallsBack t s name id fallback h end
    × CliTestsPass t id extra (looked s end)
    × (r ≡ restored s id extra (looked s end))

-- The actions of a test whose command line tests fail: those up to the provider being found, in the
-- second case by the fallback, and the command line tests. The original configuration is not copied
-- back.
abbrev pub IsUnrestored :
    Target → Service → Str → ℕ → Str → M (Unit {0}) → History → History → Type 0
IsUnrestored t s name id extra fallback h r =
    (end : History) × ((Configured t s name id h × (end ≡ h))
      ⊎ ((¬ Configured t s name id h) × FallsBack t s name id fallback h end))
    × (¬ CliTestsPass t id extra (looked s end))
    × (r ≡ looked s end ++ (run (cli_tests (some id) extra) ∷ []))

-- The provider is not configured, nor is it behind the fallback.
abbrev pub IsMissing : Target → Service → Str → ℕ → M (Unit {0}) → History → Type 0
IsMissing t s name id fallback h =
    (¬ Configured t s name id h) × ((end : History) → ¬ FallsBack t s name id fallback h end)

module _ (host : Host) (t : Target) (s : Service) (prov : Str) (c : ℕ) (p : Str) (n : ℕ)
    (extra : Str) (fallback : M (Unit {0})) (h : History) where
  abbrev test_run : M Bool
  test_run = provider_test host s prov (c ∷ p) (suc n) extra fallback

  passed_end :
      {a b : Bool} {end : History}
      → is_infix prov (providers_of host) ≡ true
      → (test_run t h).0 ≡ ok b
      → attempt t s c p n h fallback t h ≡ (ok a, end)
      → (a ≡ b)
        × CliTestsPass t (suc n) extra end
        × ((test_run t h).1 ≡ restored s (suc n) extra end)
  passed_end {end = end} y e k =
      elim (ℕ_discrete (t end (run (cli_tests (some (suc n)) extra))).status 0) [
        | yes q ↦
            let r = run_test_passed host t s prov c p n extra fallback h y k q in
            (cc (e, ap result r), q, ap actions r)
        | no m ↦ cc (e, ap result (run_test_failed host t s prov c p n extra fallback h y k m))
      ]

  included-IsRestored :
      {b : Bool}
      → is_infix prov (providers_of host) ≡ true
      → (test_run t h).0 ≡ ok b
      → IsRestored t s (c ∷ p) (suc n) extra fallback h b (test_run t h).1
  included-IsRestored y e = elim (attempt-cases t s c p n fallback h) [
    | inl (k, a) ↦ let (same, q, r) = passed_end y e a in rw (← same) (k, q, r)
    | inr (inl (m, end, f, a)) ↦ let (same, q, r) = passed_end y e a in rw (← same) (end, f, q, r)
    | inr (inr (m, f, x, a)) ↦ cc (e, run_test_raised host t s prov c p n extra fallback h y a)
  ]

  failed_end :
      {a : Bool} {x : Exception} {end : History}
      → is_infix prov (providers_of host) ≡ true
      → (test_run t h).0 ≡ err x
      → attempt t s c p n h fallback t h ≡ (ok a, end)
      → (¬ CliTestsPass t (suc n) extra end)
        × ((test_run t h).1 ≡ end ++ (run (cli_tests (some (suc n)) extra) ∷ []))
  failed_end {end = end} y e k =
      let fails : ¬ CliTestsPass t (suc n) extra end =
        λ q. cc (e, ap result (run_test_passed host t s prov c p n extra fallback h y k q)) in
      (fails, ap actions (run_test_failed host t s prov c p n extra fallback h y k fails))

-- A provider test that passes, for a provider with a name and an id that is not 0, ends with copying
-- back the original configuration and a reload of Parsec, behind command line tests that succeeded
-- with the configuration in which the provider was found. Where it reports no change the provider was
-- configured before the test, and where it reports one the fallback has configured it.
pub provider_test-IsRestored :
    (host : Host) (t : Target) (s : Service) (prov : Str) (c : ℕ) (p : Str) (n : ℕ) (extra : Str)
    (fallback : M (Unit {0})) (h : History) (b : Bool)
    → (provider_test host s prov (c ∷ p) (suc n) extra fallback t h).0 ≡ ok b
    → IsRestored t s
        (c ∷ p)
        (suc n)
        extra
        fallback
        h
        b
        (provider_test host s prov (c ∷ p) (suc n) extra fallback t h).1
provider_test-IsRestored host t s prov c p n extra fallback h b e =
    elim (Bool-cases (is_infix prov (providers_of host))) [
      | inl y ↦ included-IsRestored host t s prov c p n extra fallback h y e
      | inr m ↦ cc (e, ap result (run_test_skipped host t s prov c p n extra fallback h m))
    ]

-- A provider test that raises though its provider is included, for a provider with a name and an id
-- that is not 0: the provider is neither configured before the test nor by the fallback; or it is,
-- and the command line tests behind that, which fail, are the last thing that the test does, so that
-- the configuration is left as it is, also where the fallback has changed it.
pub provider_test-IsUnrestored :
    (host : Host) (t : Target) (s : Service) (prov : Str) (c : ℕ) (p : Str) (n : ℕ) (extra : Str)
    (fallback : M (Unit {0})) (h : History) (x : Exception)
    → is_infix prov (providers_of host) ≡ true
    → (provider_test host s prov (c ∷ p) (suc n) extra fallback t h).0 ≡ err x
    → IsMissing t s (c ∷ p) (suc n) fallback h
      ⊎ IsUnrestored t s
          (c ∷ p)
          (suc n)
          extra
          fallback
          h
          (provider_test host s prov (c ∷ p) (suc n) extra fallback t h).1
provider_test-IsUnrestored host t s prov c p n extra fallback h x y e =
    elim (attempt-cases t s c p n fallback h) [
      | inl (k, a) ↦
          let (f, r) = failed_end host t s prov c p n extra fallback h y e a in
          inr (h, inl (k, refl), f, r)
      | inr (inl (m, end, f, a)) ↦
          let (g, r) = failed_end host t s prov c p n extra fallback h y e a in
          inr (end, inr (m, f), g, r)
      | inr (inr (m, f, _, _)) ↦ inl (m, f)
    ]
