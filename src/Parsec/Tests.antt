-- ===== src/Parsec/Tests.antt =====
-- The theorems on `ParsecTest` at concrete targets.
use meta_security.Prelude.{◌≡◌, ◌↔◌, ◌⊎◌, refl, true, false, [], ◌∷◌, some, ok}
use meta_security.Text.{Str, lit, str_eq, mem, is_infix, starts_with, join}
use meta_security.Text.Numbers.{decimal}
use meta_security.Oeqa.{Reply, run, History, Target, Passes, pure, act, ◌>>◌, M, failure, text}
use meta_security.Parsec.Defs.{
  check_packageconfig, check_parsec_providers, run_cli_tests, restore_parsec_config, Host, Service,
  providers_of, provider_line,
}
use meta_security.Parsec.Providers.{
  try_except, provider_test, test_tpm_provider, test_pkcs11_provider, test_ts_provider,
}
use meta_security.Parsec.Verdicts.{PassesAsIs, PassesBack, provider_test_lem}
use meta_security.Parsec.Restored.{
  IsRestored, IsUnrestored, IsMissing, provider_test-IsRestored, provider_test-IsUnrestored,
}
use meta_security.Parsec.Unnamed.{IsReady, providers_unnamed}

abbrev host : Host
host = record {
  distro_features = lit "systemd tpm2";
  packageconfig = some (lit "TS");
  image_packages = [];
  builtins = lit "open" ∷ lit "print" ∷ [];
  show_set = join (lit ", ");
  is_digit = λ c. false;
}

abbrev service : Service
service = record { parsec_status = lit "status"; parsec_reload = lit "reload" }

abbrev name : Str
name = lit "rusted Service"

-- The two commands of a check succeed, and the third action fails.
abbrev reply : History → Reply
reply [] = record { status = 0; output = [] }
reply (a ∷ []) = record { status = 0; output = provider_line (b'T' ∷ name) 4 }
reply (a ∷ b ∷ h) = record { status = 1; output = [] }

abbrev target : Target
target h a = reply h

provider_test_lem_example :
    Passes (provider_test host service (lit "TS") (b'T' ∷ name) 4 [] (pure tt)) target [] ↔ (
      (is_infix (lit "TS") (providers_of host) ≡ true)
      × (PassesAsIs target service (b'T' ∷ name) 4 [] []
          ⊎ PassesBack target service (b'T' ∷ name) 4 [] (pure tt) []))
provider_test_lem_example =
    provider_test_lem host target service (lit "TS") b'T' name 3 [] (pure tt) []

-- Only behind the fallback, which sends one command, are the providers listed; all else fails.
abbrev fallback_reply : History → Reply
fallback_reply [] = record { status = 1; output = [] }
fallback_reply (a ∷ []) = record { status = 0; output = [] }
fallback_reply (a ∷ b ∷ []) = record { status = 0; output = [] }
fallback_reply (a ∷ b ∷ c ∷ []) = record { status = 0; output = provider_line (b'T' ∷ name) 4 }
fallback_reply (a ∷ b ∷ c ∷ d ∷ h) = record { status = 1; output = lit "no key" }

abbrev fallback_target : Target
fallback_target h a = fallback_reply h

abbrev start_tpm : M (Unit {0})
start_tpm = act (run (lit "tpm2_startup")) >> pure tt

provider_test-IsUnrestored_example :
    IsMissing fallback_target service (b'T' ∷ name) 4 start_tpm []
    ⊎ IsUnrestored fallback_target service
        (b'T' ∷ name)
        4
        []
        start_tpm
        []
        (provider_test host service (lit "TS") (b'T' ∷ name) 4 [] start_tpm fallback_target []).1
unfolding provider_test check_packageconfig check_parsec_providers run_cli_tests
    restore_parsec_config try_except providers_of decimal is_infix starts_with lit
provider_test-IsUnrestored_example =
    provider_test-IsUnrestored host fallback_target service (lit "TS") b'T' name 3 [] start_tpm []
      (failure (text (lit "Parsec CLI tests failed.\n no key"))) refl refl

providers_unnamed_example :
    (((test_tpm_provider host service target []).0 ≡ ok tt)
      ↔ IsReady host target service (lit "TPM") (lit "TPM") 3 [] [])
    × (((test_pkcs11_provider host service target []).0 ≡ ok tt)
        ↔ IsReady host target service (lit "PKCS11") (lit "PKCS #11") 2 (lit "--no-oaep") [])
    × (((test_ts_provider host service target []).0 ≡ ok tt)
        ↔ IsReady host target service (lit "TS") (lit "Trusted Service") 4 [] [])
providers_unnamed_example = providers_unnamed host target service [] (unfold mem str_eq lit in refl)

-- All commands succeed, and the provider is listed.
abbrev working : Target
working h a = record { status = 0; output = provider_line (b'T' ∷ name) 4 }

provider_test-IsRestored_example :
    IsRestored working service
      (b'T' ∷ name)
      4
      []
      (pure tt)
      []
      false
      (provider_test host service (lit "TS") (b'T' ∷ name) 4 [] (pure tt) working []).1
unfolding provider_test check_packageconfig check_parsec_providers run_cli_tests
    restore_parsec_config try_except providers_of decimal is_infix starts_with lit
provider_test-IsRestored_example =
    provider_test-IsRestored host working service (lit "TS") b'T' name 3 [] (pure tt) [] false refl
