-- ===== src/Parsec/Providers.antt =====
-- The provider tests of `ParsecTest`. The three have one form: `provider_test`.
use meta_security.Prelude.{
  ℕ, Bool, true, false, List, [], ◌∷◌, ◌++◌, Option, none, some, ok, err, if◌then◌else◌,
}
use meta_security.Text.{Str, lit, starts_with}
use meta_security.Oeqa.{text, run, Reply, M, ◌>>=◌, ◌>>◌, pure, act, assert_status, fail}
use meta_security.Tpm.Cases.{run_all}
use meta_security.Parsec.Defs.{
  Host, Service, copy_subconfig, check_parsec_providers, run_cli_tests, restore_parsec_config,
  check_packageconfig, check_packages, one, several,
}

-- `try: … except: …`, with every exception caught
unfoldable pub try_except : {A : Type 0} → M A → M A → M A
try_except m handler t h = elim (m t h).0 [ ok a ↦ (ok a, (m t h).1) | err e ↦ handler t (m t h).1 ]

unfoldable pub test_all_providers : Service → M (Unit {0})
unfolding check_parsec_providers run_cli_tests
test_all_providers s = check_parsec_providers s none none >> run_cli_tests none []

-- The method up to `self.restore_parsec_config()`: whether the fallback was taken. The fallback is
-- what the `except` clause does before it looks for the provider again.
unfoldable pub provider_test : Host → Service → Str → Str → ℕ → Str → M (Unit {0}) → M Bool
unfolding check_packageconfig check_parsec_providers run_cli_tests restore_parsec_config try_except
provider_test host s prov name prov_id extra_params fallback = do
  check_packageconfig host prov
  reconfigure ←
      try_except (check_parsec_providers s (some name) (some prov_id) >> pure false)
        (fallback >> check_parsec_providers s (some name) (some prov_id) >> pure true)
  run_cli_tests (some prov_id) extra_params
  restore_parsec_config s
  pure reconfigure

abbrev pub tpm_config : List Str
tpm_config =
    []
    ∷ lit "[[provider]]"
    ∷ lit "name = \"tpm-provider\""
    ∷ lit "provider_type = \"Tpm\""
    ∷ lit "key_info_manager = \"sqlite-manager\""
    ∷ lit "tcti = \"swtpm:port=2321\""
    ∷ lit "owner_hierarchy_auth = \"\""
    ∷ []

abbrev pub tpm_commands : Service → List Str
tpm_commands s =
    lit "mkdir /tmp/myvtpm"
    ∷ lit
        "swtpm socket -d --tpmstate dir=/tmp/myvtpm --tpm2 --ctrl type=tcp,port=2322 --server type=tcp,port=2321 --flags not-need-init"
    ∷ lit "tpm2_startup -c -T \"swtpm:port=2321\""
    ∷ lit "chown -R parsec /tmp/myvtpm"
    ∷ s.parsec_reload
    ∷ lit "sleep 5"
    ∷ []

unfoldable pub configure_tpm_provider : Host → Service → M (Unit {0})
unfolding copy_subconfig run_all
configure_tpm_provider host s =
    copy_subconfig host tpm_config (lit "TPM") >> run_all (tpm_commands s)

unfoldable pub tpm_fallback : Host → Service → M (Unit {0})
unfolding check_packages configure_tpm_provider
tpm_fallback host s =
    check_packages host (lit "TPM") (several (lit "swtpm" ∷ lit "tpm2-tools" ∷ []))
    >> configure_tpm_provider host s

unfoldable pub test_tpm_provider : Host → Service → M (Unit {0})
unfolding provider_test tpm_fallback
test_tpm_provider host s = do
  reconfigure ← provider_test host s (lit "TPM") (lit "TPM") 3 [] (tpm_fallback host s)
  if reconfigure then (act (run (lit "swtpm_ioctl -s --tcp :2322")) >> pure tt) else pure tt

-- The text behind the first occurrence of `p`.
unfoldable pub behind_first : Str → Str → Option Str
behind_first p [] = if starts_with [] p then some [] else none
behind_first p (c ∷ s) =
    let rest = behind_first p s in if starts_with (c ∷ s) p then some (skip p (c ∷ s)) else rest
  where
    skip : Str → Str → Str
    skip [] s = s
    skip (d ∷ p) [] = []
    skip (d ∷ p) (c ∷ s) = skip p s

unfoldable pub digits_of : (ℕ → Bool) → Str → Str
digits_of is_digit [] = []
digits_of is_digit (c ∷ s) = let rest = digits_of is_digit s in if is_digit c then c ∷ rest else []

abbrev pub token_command : Str
token_command =
    lit "softhsm2-util --init-token --free --label \"Parsec Service\" --pin 123456 --so-pin 123456"

-- `slot.group(1)`, if the pattern is found: the group is `\d*`, which takes part in every match.
unfoldable pub slot_of : Host → Str → Option Str
unfolding behind_first digits_of
slot_of host output =
    elim (behind_first (lit "The token has been initialized and is reassigned to slot ") output) [
      | none ↦ none
      | some s ↦ some (digits_of host.is_digit s)
    ]

abbrev pub pkcs11_config : Str → List Str
pkcs11_config slot =
    []
    ∷ lit "[[provider]]"
    ∷ lit "name = \"pkcs11-provider\""
    ∷ lit "provider_type = \"Pkcs11\""
    ∷ lit "key_info_manager = \"sqlite-manager\""
    ∷ lit "library_path = \"/usr/lib/softhsm/libsofthsm2.so\""
    ∷ (lit "slot_number = " ++ slot)
    ∷ lit "user_pin = \"123456\""
    ∷ lit "allow_export = true"
    ∷ []

abbrev pub slot_or_fail : Host → Reply → M Str
slot_or_fail host r = elim (slot_of host r.output) [
  | some slot ↦ pure slot
  | none ↦ fail (text (lit "Failed to get PKCS11 slot serial number.\n" ++ r.output))
]

abbrev pub reload : Service → M (Unit {0})
reload s = do
  r ← act (run s.parsec_reload)
  assert_status r.status 0 (text (lit "Failed to reload Parsec.\n" ++ r.output))

unfoldable pub configure_pkcs11_provider : Host → Service → M (Unit {0})
unfolding copy_subconfig slot_of
configure_pkcs11_provider host s = do
  r ← act (run token_command)
  assert_status r.status 0 (text (lit "Failed to init PKCS11 token.\n" ++ r.output))
  slot ← slot_or_fail host r
  copy_subconfig host (pkcs11_config slot) (lit "PKCS11")
  act (run (lit "for d in /var/lib/softhsm/tokens/*; do chown -R parsec $d; done"))
  reload s

unfoldable pub pkcs11_fallback : Host → Service → M (Unit {0})
unfolding check_packages configure_pkcs11_provider
pkcs11_fallback host s =
    check_packages host (lit "PKCS11") (one (lit "softhsm")) >> configure_pkcs11_provider host s

unfoldable pub test_pkcs11_provider : Host → Service → M (Unit {0})
unfolding provider_test pkcs11_fallback
test_pkcs11_provider host s =
    provider_test host s (lit "PKCS11") (lit "PKCS #11") 2 (lit "--no-oaep")
      (pkcs11_fallback host s)
    >> pure tt

abbrev pub ts_config : List Str
ts_config =
    []
    ∷ lit "[[provider]]"
    ∷ lit "name = \"trusted-service-provider\""
    ∷ lit "provider_type = \"TrustedService\""
    ∷ lit "key_info_manager = \"sqlite-manager\""
    ∷ []

unfoldable pub configure_ts_provider : Host → Service → M (Unit {0})
unfolding copy_subconfig
configure_ts_provider host s = copy_subconfig host ts_config (lit "TS") >> reload s

unfoldable pub test_ts_provider : Host → Service → M (Unit {0})
unfolding provider_test configure_ts_provider
test_ts_provider host s =
    provider_test host s (lit "TS") (lit "Trusted Service") 4 [] (configure_ts_provider host s)
    >> pure tt
