-- ===== src/Parsec/Unnamed.antt =====
-- What the missing import of `os` in parsec.py does to the provider tests.
use meta_security.Prelude.{
  ℕ, suc, ◌≡◌, ◌↔◌, refl, ap, Bool, true, false, List, [], ◌∷◌, ◌++◌, arith, inl, inr, ok, err,
  if◌then◌else◌, Result-cases,
}
use meta_security.Text.{Str, lit, str_eq, mem, is_infix}
use meta_security.Oeqa.{
  Exception, Message, text, name_error, run, mkstemp, Target, History, Reply, M, ◌>>=◌, ◌>>◌, pure,
  act, assert_status, Passes,
}
use meta_security.Tpm.Cases.{run_all}
use meta_security.Parsec.Defs.{
  Host, Service, imports, copy_subconfig, check_packages, providers_of, one, several,
}
use meta_security.Parsec.Providers.{
  provider_test, tpm_fallback, pkcs11_fallback, configure_tpm_provider, configure_pkcs11_provider,
  tpm_config, tpm_commands, token_command, pkcs11_config, slot_or_fail, ts_config, reload,
  configure_ts_provider, test_tpm_provider, test_pkcs11_provider, test_ts_provider,
}
use meta_security.Parsec.Fallback.{refused, result}
use meta_security.Parsec.Verdicts.{PassesAsIs, PassesBack, provider_test_lem}

-- A method raises, whatever the exception.
module _ {A : Type 0} where
  abbrev Raises : M A → Target → History → Type 0
  Raises m t h = (x : Exception) × ((m t h).0 ≡ err x)

Raises-first :
    {A B : Type 0} (m : M A) (f : A → M B) (t : Target) (h : History)
    → Raises m t h
    → Raises (m >>= f) t h
Raises-first m f t h (x, e) = (x, ground (arith, e))

Raises-later :
    {A B : Type 0} (m : M A) (f : A → M B) (t : Target)
    → ((a : A) (h : History) → Raises (f a) t h)
    → (h : History) → Raises (m >>= f) t h
Raises-later m f t r h = elim (Result-cases (m t h).0) [
  | inl (a, e) ↦ let (x, e') = r a (m t h).1 in (x, ground (arith, e, e'))
  | inr (x, e) ↦ (x, ground (arith, e))
]

imports-os : (builtins : List Str) → mem (lit "os") (imports ++ builtins) ≡ mem (lit "os") builtins
unfolding imports lit str_eq mem
imports-os builtins = refl

-- Where `os` is not a name of every module, `copy_subconfig` makes a temporary file, raises a
-- `NameError`, and copies nothing.
pub copy_subconfig_unnamed :
    (host : Host) (cfg : List Str) (provider : Str) (t : Target) (h : History)
    → mem (lit "os") host.builtins ≡ false
    → copy_subconfig host cfg provider t h ≡ (err (name_error (lit "os")), h ++ (mkstemp ∷ []))
unfolding copy_subconfig
copy_subconfig_unnamed host cfg provider t h m = ground (arith, m, imports-os host.builtins)

-- So no fallback ends.
module _ (host : Host) (t : Target) (s : Service) (m : mem (lit "os") host.builtins ≡ false) where
  copy-Raises :
      (cfg : List Str) (provider : Str) (h : History)
      → Raises (copy_subconfig host cfg provider) t h
  copy-Raises cfg provider h =
      (name_error (lit "os"), ap result (copy_subconfig_unnamed host cfg provider t h m))

  ts-Raises : (h : History) → Raises (configure_ts_provider host s) t h
  unfolding configure_ts_provider
  ts-Raises h =
      Raises-first (copy_subconfig host ts_config (lit "TS")) (λ _. reload s) t h
        (copy-Raises ts_config (lit "TS") h)

  tpm-Raises : (h : History) → Raises (tpm_fallback host s) t h
  unfolding tpm_fallback configure_tpm_provider
  tpm-Raises =
      Raises-later (check_packages host (lit "TPM") (several (lit "swtpm" ∷ lit "tpm2-tools" ∷ [])))
        (λ _. configure_tpm_provider host s) t
        (λ _ h.
          Raises-first (copy_subconfig host tpm_config (lit "TPM")) (λ _. run_all (tpm_commands s))
            t h (copy-Raises tpm_config (lit "TPM") h))

  -- What `configure_pkcs11_provider` does behind the copy, with the slot, and with the token.
  abbrev behind_copy : M (Unit {0})
  behind_copy = do
    act (run (lit "for d in /var/lib/softhsm/tokens/*; do chown -R parsec $d; done"))
    reload s

  abbrev with_slot : Str → M (Unit {0})
  with_slot slot = copy_subconfig host (pkcs11_config slot) (lit "PKCS11") >> behind_copy

  abbrev token_message : Reply → Message
  token_message r = text (lit "Failed to init PKCS11 token.\n" ++ r.output)

  abbrev with_token : Reply → M (Unit {0})
  with_token r = assert_status r.status 0 (token_message r) >> (slot_or_fail host r >>= with_slot)

  with_slot-Raises : (slot : Str) (h : History) → Raises (with_slot slot) t h
  with_slot-Raises slot h =
      Raises-first (copy_subconfig host (pkcs11_config slot) (lit "PKCS11")) (λ _. behind_copy) t h
        (copy-Raises (pkcs11_config slot) (lit "PKCS11") h)

  with_token-Raises : (r : Reply) (h : History) → Raises (with_token r) t h
  with_token-Raises r =
      Raises-later (assert_status r.status 0 (token_message r))
        (λ _. slot_or_fail host r >>= with_slot) t
        (λ _. Raises-later (slot_or_fail host r) with_slot t with_slot-Raises)

  pkcs11-Raises : (h : History) → Raises (pkcs11_fallback host s) t h
  unfolding pkcs11_fallback configure_pkcs11_provider
  pkcs11-Raises =
      Raises-later (check_packages host (lit "PKCS11") (one (lit "softhsm")))
        (λ _. configure_pkcs11_provider host s) t
        (λ _. Raises-later (act (run token_command)) with_token t with_token-Raises)

  -- With a fallback that never ends a provider test passes only as it is.
  only_as_is :
      (name : Str) (id : ℕ) (extra : Str) (fallback : M (Unit {0})) (h : History)
      → ((h' : History) → Raises fallback t h')
      → ¬ PassesBack t s name id extra fallback h
  only_as_is name id extra fallback h r (n, end, f, q) =
      let (x, e) = r (refused t s h) in cc (ap result f.0, e)

-- The provider is included in the build and configured, and its tests pass.
abbrev pub IsReady : Host → Target → Service → Str → Str → ℕ → Str → History → Type 0
IsReady host t s prov name id extra h =
    (is_infix prov (providers_of host) ≡ true) × PassesAsIs t s name id extra h

as_is_lem :
    (host : Host) (t : Target) (s : Service) (prov : Str) (c : ℕ) (p : Str) (n : ℕ) (extra : Str)
    (fallback : M (Unit {0})) (h : History)
    → mem (lit "os") host.builtins ≡ false
    → ((h' : History) → Raises fallback t h')
    → Passes (provider_test host s prov (c ∷ p) (suc n) extra fallback) t h
      ↔ IsReady host t s prov (c ∷ p) (suc n) extra h
as_is_lem host t s prov c p n extra fallback h m r =
    let (to, from) = provider_test_lem host t s prov c p n extra fallback h in
    (
      λ k. (
        (to k).0,
        elim (to k).1 [
          | inl a ↦ a
          | inr b ↦ absurd (only_as_is host t s m (c ∷ p) (suc n) extra fallback h r b)
        ],
      ),
      λ (y, a). from (y, inl a),
    )

Passes-bind :
    {A : Type 0} (m : M A) (f : A → M (Unit {0})) (t : Target) (h : History)
    → ((a : A) (h' : History) → (f a t h').0 ≡ ok tt)
    → ((m >>= f) t h).0 ≡ ok tt ↔ Passes m t h
Passes-bind m f t h e = elim (Result-cases (m t h).0) [
  | inl (a, y) ↦ (λ _. (a, y), λ _. ground (arith, y, e a (m t h).1))
  | inr (x, y) ↦ (λ k. ground (arith, y), λ (a, k). cc (k, y))
]

iff_trans : {A B C : Type 0} → A ↔ B → B ↔ C → A ↔ C
iff_trans (f, g) (f', g') = (λ a. f' (f a), λ c. g (g' c))

-- The last step of `test_tpm_provider`.
stop_simulator : Bool → M (Unit {0})
stop_simulator b = if b then (act (run (lit "swtpm_ioctl -s --tcp :2322")) >> pure tt) else pure tt

stop_simulator_ends : (t : Target) (b : Bool) (h : History) → (stop_simulator b t h).0 ≡ ok tt
unfolding stop_simulator
stop_simulator_ends t true h = refl
stop_simulator_ends t false h = refl

-- Where `os` is not a name of every module, the three provider tests pass exactly when their
-- provider is included in the build, is configured before the test, and passes its command line
-- tests.
pub providers_unnamed :
    (host : Host) (t : Target) (s : Service) (h : History)
    → mem (lit "os") host.builtins ≡ false
    → (((test_tpm_provider host s t h).0 ≡ ok tt) ↔ IsReady host t s (lit "TPM") (lit "TPM") 3 [] h)
      × (((test_pkcs11_provider host s t h).0 ≡ ok tt)
          ↔ IsReady host t s (lit "PKCS11") (lit "PKCS #11") 2 (lit "--no-oaep") h)
      × (((test_ts_provider host s t h).0 ≡ ok tt)
          ↔ IsReady host t s (lit "TS") (lit "Trusted Service") 4 [] h)
unfolding test_tpm_provider test_pkcs11_provider test_ts_provider stop_simulator lit
providers_unnamed host t s h m = (
  iff_trans
      (Passes-bind (provider_test host s (lit "TPM") (lit "TPM") 3 [] (tpm_fallback host s))
        stop_simulator t h (stop_simulator_ends t))
      (as_is_lem host t s (lit "TPM") b'T' (lit "PM") 2 [] (tpm_fallback host s) h m
        (tpm-Raises host t s m)),
  iff_trans
      (Passes-bind
        (provider_test host s (lit "PKCS11") (lit "PKCS #11") 2 (lit "--no-oaep")
          (pkcs11_fallback host s))
        (λ _. pure tt) t h (λ _ _. refl))
      (as_is_lem host t s (lit "PKCS11") b'P' (lit "KCS #11") 1 (lit "--no-oaep")
        (pkcs11_fallback host s) h m (pkcs11-Raises host t s m)),
  iff_trans
      (Passes-bind
        (provider_test host s (lit "TS") (lit "Trusted Service") 4 []
          (configure_ts_provider host s))
        (λ _. pure tt) t h (λ _ _. refl))
      (as_is_lem host t s (lit "TS") b'T' (lit "rusted Service") 3 [] (configure_ts_provider host s)
        h m (ts-Raises host t s m)),
)
