-- ===== src/Parsec/Defs.antt =====
-- The methods of `ParsecTest`. `Host` is what the methods read of the build and of the interpreter.
use meta_security.Prelude.{
  ℕ, zero, suc, Bool, true, ◌&&◌, List, [], ◌∷◌, ◌++◌, Option, none, some, if◌then◌else◌,
}
use meta_security.Text.{Str, lit, mem, is_infix, join}
use meta_security.Text.Numbers.{decimal}
use meta_security.Oeqa.{
  text, skip_test, run, copy_to, mkstemp, write_file, remove_file, M, ◌>>=◌, ◌>>◌, pure, raise, act,
  assert_status, assert_in,
}
use meta_security.Oeqa.Verdict.{use_name}

-- `self.tc.td`, where `PACKAGECONFIG:pn-parsec-service` may be missing, and
-- `self.tc.image_packages`; the names of every module; what `%s` prints for a set; and the
-- characters that `\d` fits, the decimal digits of Unicode.
pub record Host : Type 0 where
  pub distro_features : Str
  pub packageconfig : Option Str
  pub image_packages : List Str
  pub builtins : List Str
  pub show_set : List Str → Str
  pub is_digit : ℕ → Bool

unfoldable pub imports : List Str
imports =
    lit "re"
    ∷ lit "mkstemp"
    ∷ lit "OERuntimeTestCase"
    ∷ lit "OETestDepends"
    ∷ lit "OEHasPackage"
    ∷ lit "skipIfNotFeature"
    ∷ []

abbrev pub toml_file : Str
toml_file = lit "/etc/parsec/config.toml"

unfoldable pub set_up_class : M (Unit {0})
set_up_class = do
  act (run (lit "cp -p " ++ (toml_file ++ (lit " " ++ (toml_file ++ lit "-original")))))
  pure tt

-- The attributes that `setUp` sets.
pub record Service : Type 0 where
  pub parsec_status : Str
  pub parsec_reload : Str

unfoldable pub set_up : Host → Service
set_up host =
    if is_infix (lit "systemd") host.distro_features
    then record {
      parsec_status = lit "systemctl status -l parsec";
      parsec_reload = lit "systemctl restart parsec";
    }
    else record {
      parsec_status = lit "pgrep -l parsec";
      parsec_reload = lit "/etc/init.d/parsec reload";
    }

unfoldable pub tear_down : M (Unit {0})
tear_down = act (run (lit "sync")) >> pure tt

-- `"%s-%s" % (self.toml_file, provider)`
abbrev pub subconfig : Str → Str
subconfig provider = toml_file ++ (lit "-" ++ provider)

unfoldable pub copy_subconfig : Host → List Str → Str → M (Unit {0})
copy_subconfig host cfg provider = do
  tmp ← act mkstemp
  use_name (imports ++ host.builtins) (lit "os")
  act (write_file tmp.output (join (lit "\n") cfg))
  c ← act (copy_to tmp.output (subconfig provider))
  assert_status c.status 0 (text (lit "File could not be copied.\n" ++ c.output))
  act (run (lit "cat " ++ (subconfig provider ++ (lit " >>" ++ toml_file))))
  act (remove_file tmp.output)
  pure tt

unfoldable pub restore_parsec_config : Service → M (Unit {0})
restore_parsec_config s = do
  act (run (lit "cp -p " ++ (toml_file ++ (lit "-original " ++ toml_file))))
  act (run s.parsec_reload)
  pure tt

-- `"ID: 0x0%d (%s provider)" % (prov_id, provider)`
abbrev pub provider_line : Str → ℕ → Str
provider_line provider prov_id =
    lit "ID: 0x0" ++ (decimal prov_id ++ (lit " (" ++ (provider ++ lit " provider)")))

abbrev pub list_providers : Str
list_providers = lit "parsec-tool list-providers"

-- `if provider and prov_id:`, where an empty text and 0 count as false
abbrev pub assert_provider : Option Str → Option ℕ → Str → M (Unit {0})
assert_provider (some (c ∷ p)) (some (suc n)) output =
    assert_in (provider_line (c ∷ p) (suc n)) output
      (text ((c ∷ p) ++ lit " provider is not configured."))
assert_provider (some (c ∷ p)) (some zero) output = pure tt
assert_provider (some (c ∷ p)) none output = pure tt
assert_provider (some []) prov_id output = pure tt
assert_provider none prov_id output = pure tt

unfoldable pub check_parsec_providers : Service → Option Str → Option ℕ → M (Unit {0})
check_parsec_providers s provider prov_id = do
  r ← act (run s.parsec_status)
  assert_status r.status 0 (text (lit "Parsec service is not running.\n" ++ r.output))
  l ← act (run list_providers)
  assert_status l.status 0 (text (lit "Cannot get a list of Parsec providers.\n" ++ l.output))
  assert_provider provider prov_id l.output

-- `"-%d" % prov_id if prov_id else ""`
abbrev pub id_option : Option ℕ → Str
id_option (some (suc n)) = lit "-" ++ decimal (suc n)
id_option (some zero) = []
id_option none = []

abbrev pub cli_tests : Option ℕ → Str → Str
cli_tests prov_id extra_params =
    lit "parsec-cli-tests.sh " ++ (id_option prov_id ++ (lit " " ++ extra_params))

unfoldable pub run_cli_tests : Option ℕ → Str → M (Unit {0})
run_cli_tests prov_id extra_params = do
  r ← act (run (cli_tests prov_id extra_params))
  assert_status r.status 0 (text (lit "Parsec CLI tests failed.\n " ++ r.output))

abbrev pub default_providers : Str → Str
default_providers features =
    if is_infix (lit "tpm2") features
    then lit "PKCS11 MBED-CRYPTO TPM"
    else lit "PKCS11 MBED-CRYPTO"

unfoldable pub providers_of : Host → Str
providers_of host = elim host.packageconfig [
  | some providers ↦ providers
  | none ↦ default_providers host.distro_features
]

abbrev pub not_included : Host → Str → Str
not_included host prov =
    prov
    ++ (lit " provider is not included in Parsec. Parsec PACKAGECONFIG: \""
        ++ (providers_of host ++ lit "\""))

unfoldable pub check_packageconfig : Host → Str → M (Unit {0})
unfolding providers_of
check_packageconfig host prov =
    if is_infix prov (providers_of host)
    then pure tt
    else raise (skip_test (not_included host prov))

-- `isinstance(packages, str)`
pub data Packages : Type 0 where
  one : Str → Packages
  several : List Str → Packages

abbrev pub need_pkgs : Packages → List Str
need_pkgs (one p) = p ∷ []
need_pkgs (several ps) = ps

unfoldable pub is_subset : List Str → List Str → Bool
is_subset [] image = true
is_subset (p ∷ ps) image = mem p image && is_subset ps image

unfoldable pub check_packages : Host → Str → Packages → M (Unit {0})
unfolding is_subset
check_packages host prov packages =
    if is_subset (need_pkgs packages) host.image_packages
    then pure tt
    else raise (
        skip_test (
          prov
          ++ (lit " provider is not configured and packages \""
              ++ (host.show_set (need_pkgs packages) ++ lit "\" are not included into the image"))))
