-- ===== src/Services/Suricata.antt =====
-- lib/oeqa/runtime/cases/suricata.py: the class `SuricataTest`.
use meta_security.Prelude.{◌≡◌, refl, false, List, [], ◌∷◌, ◌++◌, err}
use meta_security.Text.{Str, lit, str_eq, mem}
use meta_security.Oeqa.{name_error, mkstemp, History, Target, M}
use meta_security.Oeqa.Verdict.{Verdict, HasStatus, report, expect_status, expect_status-Verdict}
use meta_security.Services.Resolv.{write_resolv, remove_resolv, ping_host, write_resolv_unnamed}

-- The names that the file imports.
unfoldable pub imports : List Str
imports =
    lit "re"
    ∷ lit "mkstemp"
    ∷ lit "OERuntimeTestCase"
    ∷ lit "OETestDepends"
    ∷ lit "OEHasPackage"
    ∷ []

-- `builtins` are the names that every module can use.
unfoldable pub set_up_class : List Str → M Str
unfolding write_resolv
set_up_class builtins = write_resolv (imports ++ builtins)

unfoldable pub tear_down_class : List Str → Str → M (Unit {0})
unfolding remove_resolv
tear_down_class builtins = remove_resolv (imports ++ builtins)

unfoldable pub test_suricata_help : M (Unit {0})
unfolding expect_status
test_suricata_help =
    expect_status (lit "suricata --help") 1
      (report (lit "suricata command does not work as expected. "))

unfoldable pub test_ping_openinfosecfoundation_org : Str → M (Unit {0})
unfolding ping_host
test_ping_openinfosecfoundation_org tmp_path = ping_host tmp_path (lit "openinfosecfoundation.org")

unfoldable pub test_suricata_update : M (Unit {0})
unfolding expect_status
test_suricata_update =
    expect_status (lit "suricata-update") 0
      (report (lit "suricata-update had an unexpected failure. "))

unfoldable pub test_suricata_update_sources_list : M (Unit {0})
unfolding expect_status
test_suricata_update_sources_list =
    expect_status (lit "suricata-update list-sources") 0
      (report (lit "suricata-update list-sources had an unexpected failure. "))

unfoldable pub test_suricata_update_sources : M (Unit {0})
unfolding expect_status
test_suricata_update_sources =
    expect_status (lit "suricata-update update-sources") 0
      (report (lit "suricata-update update-sources had an unexpected failure. "))

unfoldable pub test_suricata_update_enable_source : M (Unit {0})
unfolding expect_status
test_suricata_update_enable_source =
    expect_status (lit "suricata-update enable-source oisf/trafficid") 0
      (report (lit "suricata-update enable-source oisf/trafficid  had an unexpected failure. "))

imports-os : (builtins : List Str) → mem (lit "os") (imports ++ builtins) ≡ mem (lit "os") builtins
unfolding imports lit str_eq mem
imports-os builtins = refl

-- Where `os` is no name of every module, the class cannot be set up: after the temporary file is
-- made, `setUpClass` raises a `NameError`.
pub suricata_set_up :
    (builtins : List Str) (t : Target) (h : History)
    → mem (lit "os") builtins ≡ false
    → set_up_class builtins t h ≡ (err (name_error (lit "os")), h ++ (mkstemp ∷ []))
unfolding set_up_class
suricata_set_up builtins t h n = write_resolv_unnamed (imports ++ builtins) t h (rw imports-os n)

-- Each of these tests sends its one command and nothing else. The first passes exactly when the
-- status is 1, the others when it is 0.
pub suricata_verdicts :
    (t : Target) (h : History)
    → (Verdict t h test_suricata_help (lit "suricata --help") (HasStatus 1))
      × (Verdict t h test_suricata_update (lit "suricata-update") (HasStatus 0))
      × (Verdict t h test_suricata_update_sources_list
          (lit "suricata-update list-sources")
          (HasStatus 0))
      × (Verdict t h test_suricata_update_sources
          (lit "suricata-update update-sources")
          (HasStatus 0))
      × (Verdict t h test_suricata_update_enable_source
          (lit "suricata-update enable-source oisf/trafficid")
          (HasStatus 0))
unfolding test_suricata_help test_suricata_update test_suricata_update_sources_list
    test_suricata_update_sources test_suricata_update_enable_source
suricata_verdicts t h = (
  search expect_status-Verdict,
  search expect_status-Verdict,
  search expect_status-Verdict,
  search expect_status-Verdict,
  search expect_status-Verdict,
)
