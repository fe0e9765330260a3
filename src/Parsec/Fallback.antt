-- ===== src/Parsec/Fallback.antt =====
-- When a provider test passes: with a provider that is configured, or by its fallback.
use meta_security.Prelude.{
  ℕ, suc, ◌≡◌, ◌⊎◌, ap, sym, subst, Bool, true, false, [], ◌∷◌, ◌++◌, some, arith, inl, inr, Result,
  ok, err, if◌then◌else◌, Result-cases, ◌==◌,
}
use meta_security.Text.{Str, lit, is_infix}
use meta_security.Oeqa.{Exception, failure, text, skip_test, run, Target, History, M, ◌>>◌, pure}
use meta_security.Parsec.Defs.{
  Host, Service, check_parsec_providers, run_cli_tests, restore_parsec_config, check_packageconfig,
  providers_of, provider_line, list_providers, cli_tests, toml_file, not_included,
}
use meta_security.Parsec.Providers.{provider_test, try_except}

abbrev pub looked : Service → History → History
looked s h = h ++ (run s.parsec_status ∷ []) ++ (run list_providers ∷ [])

-- The service runs, its providers can be listed, and the list names this one.
abbrev pub Configured : Target → Service → Str → ℕ → History → Type 0
Configured t s name id h =
    ((t h (run s.parsec_status)).status ≡ 0)
    × ((t (h ++ (run s.parsec_status ∷ [])) (run list_providers)).status ≡ 0)
    × (is_infix (provider_line name id)
          (t (h ++ (run s.parsec_status ∷ [])) (run list_providers)).output
        ≡ true)

-- The actions of a check that fails: the providers are listed only if the service runs.
abbrev pub refused : Target → Service → History → History
refused t s h =
    if (t h (run s.parsec_status)).status == 0 then looked s h else h ++ (run s.parsec_status ∷ [])

-- `name` is `c ∷ p` and `id` is `suc n`: both count as true.
module _ (t : Target) (s : Service) (c : ℕ) (p : Str) (n : ℕ) (h : History) where
  abbrev pub check : Result Exception (Unit {0}) × History
  check = check_parsec_providers s (some (c ∷ p)) (some (suc n)) t h

  check-Configured : Configured t s (c ∷ p) (suc n) h → check ≡ (ok tt, looked s h)
  unfolding check_parsec_providers
  check-Configured (a, b, d) = ground (arith, a, b, d)

  Configured-check : check.0 ≡ ok tt → Configured t s (c ∷ p) (suc n) h
  unfolding check_parsec_providers
  Configured-check e = ground arith

  check_refused : {e : Exception} → check.0 ≡ err e → check.1 ≡ refused t s h
  unfolding check_parsec_providers
  check_refused e = ground arith

  -- The `try` statement of a provider test, by its branches.
  module _ (fallback : M (Unit {0})) where
    abbrev pub attempt : M Bool
    attempt =
        try_except (check_parsec_providers s (some (c ∷ p)) (some (suc n)) >> pure false)
          (fallback >> check_parsec_providers s (some (c ∷ p)) (some (suc n)) >> pure true)

    pub attempt-Configured : Configured t s (c ∷ p) (suc n) h → attempt t h ≡ (ok false, looked s h)
    unfolding try_except
    attempt-Configured k = ground (arith, check-Configured k)

abbrev pub result : {A B : Type 0} → A × B → A
result r = r.0

abbrev pub actions : {A B : Type 0} → A × B → B
actions r = r.1

-- The fallback ends, and the provider is configured then: the history behind the second check.
abbrev pub FallsBack : Target → Service → Str → ℕ → M (Unit {0}) → History → History → Type 0
FallsBack t s name id fallback h end =
    (fallback t (refused t s h) ≡ (ok tt, end)) × Configured t s name id end

module _ (t : Target) (s : Service) (c : ℕ) (p : Str) (n : ℕ) (fallback : M (Unit {0})) where
  attempt_fallback :
      (h end : History) {e : Exception}
      → (check t s c p n h).0 ≡ err e
      → FallsBack t s (c ∷ p) (suc n) fallback h end
      → attempt t s c p n h fallback t h ≡ (ok true, looked s end)
  unfolding try_except
  attempt_fallback h end e (f, k) =
      ground (arith, e, check_refused t s c p n h e, f, check-Configured t s c p n end k)

  attempt_raised :
      (h : History) {e x : Exception}
      → (check t s c p n h).0 ≡ err e
      → (fallback t (refused t s h)).0 ≡ err x
      → (attempt t s c p n h fallback t h).0 ≡ err x
  unfolding try_except
  attempt_raised h e f = ground (arith, e, check_refused t s c p n h e, f)

  attempt_unconfigured :
      (h : History) {e x : Exception}
      → (check t s c p n h).0 ≡ err e
      → (fallback t (refused t s h)).0 ≡ ok tt
      → (check t s c p n (fallback t (refused t s h)).1).0 ≡ err x
      → (attempt t s c p n h fallback t h).0 ≡ err x
  unfolding try_except
  attempt_unconfigured h e f x = ground (arith, e, check_refused t s c p n h e, f, x)

  abbrev pub Outcomes : History → Type 0
  Outcomes h =
      (Configured t s (c ∷ p) (suc n) h
        × (attempt t s c p n h fallback t h ≡ (ok false, looked s h)))
      ⊎ (((¬ Configured t s (c ∷ p) (suc n) h)
            × (end : History) × FallsBack t s (c ∷ p) (suc n) fallback h end
            × (attempt t s c p n h fallback t h ≡ (ok true, looked s end)))
          ⊎ ((¬ Configured t s (c ∷ p) (suc n) h)
              × ((end : History) → ¬ FallsBack t s (c ∷ p) (suc n) fallback h end)
              × (x : Exception) × ((attempt t s c p n h fallback t h).0 ≡ err x)))

  refused_check :
      (h : History) {e : Exception}
      → (check t s c p n h).0 ≡ err e
      → ¬ Configured t s (c ∷ p) (suc n) h
  refused_check h e k = cc (e, ap result (check-Configured t s c p n h k))

  pub attempt-cases : (h : History) → Outcomes h
  attempt-cases h = elim (Result-cases (check t s c p n h).0) [
    | inl (u, e) ↦
        let k = Configured-check t s c p n h e in inl (k, attempt-Configured t s c p n h fallback k)
    | inr (e, r) ↦ elim (Result-cases (fallback t (refused t s h)).0) [
      | inr (x, f) ↦
          inr
            (inr (refused_check h r, (λ end (g, k). cc (f, ap result g)), x, attempt_raised h r f))
      | inl (u, f) ↦
          let end = (fallback t (refused t s h)).1 in
          elim (Result-cases (check t s c p n end).0) [
            | inl (u, k) ↦
                let falls : FallsBack t s (c ∷ p) (suc n) fallback h end =
                  (cc f, Configured-check t s c p n end k) in
                inr (inl (refused_check h r, end, falls, attempt_fallback h end r falls))
            | inr (x, k) ↦ inr (
                inr (
                  refused_check h r,
                  (λ end' (g, k').
                      refused_check end k
                        (subst (Configured t s (c ∷ p) (suc n)) (sym (ap actions g)) k')),
                  x,
                  attempt_unconfigured h r f k,
                ))
          ]
    ]
  ]

-- The command line tests of the package end with status 0, behind these actions.
abbrev pub CliTestsPass : Target → ℕ → Str → History → Type 0
CliTestsPass t id extra h = (t h (run (cli_tests (some id) extra))).status ≡ 0

abbrev pub restored : Service → ℕ → Str → History → History
restored s id extra h =
    h
    ++ (run (cli_tests (some id) extra) ∷ [])
    ++ (run (lit "cp -p " ++ (toml_file ++ (lit "-original " ++ toml_file))) ∷ [])
    ++ (run s.parsec_reload ∷ [])

-- The branches of a provider test.
module _ (host : Host) (t : Target) (s : Service) (prov : Str) (c : ℕ) (p : Str) (n : ℕ)
    (extra : Str) (fallback : M (Unit {0})) (h : History) where
  abbrev pub run_test : Result Exception Bool × History
  run_test = provider_test host s prov (c ∷ p) (suc n) extra fallback t h

  pub run_test_skipped :
      is_infix prov (providers_of host) ≡ false
      → run_test ≡ (err (skip_test (not_included host prov)), h)
  unfolding provider_test check_packageconfig
  run_test_skipped e = ground (arith, e)

  pub run_test_raised :
      {x : Exception}
      → is_infix prov (providers_of host) ≡ true
      → (attempt t s c p n h fallback t h).0 ≡ err x
      → run_test.0 ≡ err x
  unfolding provider_test check_packageconfig
  run_test_raised e a = ground (arith, e, a)

  pub run_test_passed :
      {b : Bool} {end : History}
      → is_infix prov (providers_of host) ≡ true
      → attempt t s c p n h fallback t h ≡ (ok b, end)
      → CliTestsPass t (suc n) extra end
      → run_test ≡ (ok b, restored s (suc n) extra end)
  unfolding provider_test check_packageconfig run_cli_tests restore_parsec_config
  run_test_passed e a k = ground (arith, e, a, k)

  pub run_test_failed :
      {b : Bool} {end : History}
      → is_infix prov (providers_of host) ≡ true
      → attempt t s c p n h fallback t h ≡ (ok b, end)
      → ¬ CliTestsPass t (suc n) extra end
      → run_test ≡ (
        err (
            failure (
              text (
                lit "Parsec CLI tests failed.\n "
                ++ (t end (run (cli_tests (some (suc n)) extra))).output))),
        end ++ (run (cli_tests (some (suc n)) extra) ∷ []),
      )
  unfolding provider_test check_packageconfig run_cli_tests
  run_test_failed e a k = ground (arith, e, a, k)
