-- ===== src/Services/Tests.antt =====
-- The theorems on the tests of packages, at a target that answers every command alike.
use meta_security.Prelude.{◌≡◌, ◌↔◌, refl, [], ◌∷◌, some, ok, err, List, All}
use meta_security.Text.{Str, lit, str_eq, mem}
use meta_security.Oeqa.{run, copy_to, mkstemp, name_error, Target}
use meta_security.Oeqa.Verdict.{HasStatusOr}
use meta_security.Services.Samhain.{append_hosts, appended, test_samhain_help}
use meta_security.Services.Tripwire.{
  test_tripwire_twadmin, test_tripwire_init, generated, wrote, create_cfgfile, create_polfile,
  tripwire_init,
}
use meta_security.Services.Resolv.{resolv_conf, removed, copied}
use meta_security.Tpm.Cases.{test_tpm2_startup, AllSucceed, socket_command, startup_command}
use meta_security.Services.Clamav
use meta_security.Services.Clamav.{test_ping_clamav_net}
use meta_security.Services.Suricata
use meta_security.Services.Suricata.{test_ping_openinfosecfoundation_org}
use meta_security.Services.Contract.{promises, IsKept, promises-IsKept, sequences_lem}
use meta_security.Services.Unnamed.{set_up_class_unnamed}

abbrev target : Target
target h a = record { status = 0; output = lit "apparmor module is loaded." }

abbrev broken : Target
broken h a = record { status = 1; output = lit "no route to host" }

promises-IsKept_example : All (IsKept target []) promises
promises-IsKept_example = promises-IsKept target []

sequences_lem_example :
    (((test_samhain_help (some (lit "qemux86")) target []).0 ≡ ok tt) ↔ (
      ((target [] (append_hosts (lit "qemux86"))).status ≡ 0)
      × ((target (appended (some (lit "qemux86")) []) (run (lit "samhain --help"))).status ≡ 0)))
    × (((test_ping_clamav_net (lit "/tmp/x") target []).0 ≡ ok tt) ↔ (
        ((target (removed []) (copy_to (lit "/tmp/x") resolv_conf)).status ≡ 0)
        × ((target (copied (lit "/tmp/x") []) (run (lit "ping -c 1 database.clamav.net"))).status
            ≡ 0)))
    × (((test_ping_openinfosecfoundation_org (lit "/tmp/x") target []).0 ≡ ok tt) ↔ (
        ((target (removed []) (copy_to (lit "/tmp/x") resolv_conf)).status ≡ 0)
        × ((target
              (copied (lit "/tmp/x") [])
              (run (lit "ping -c 1 openinfosecfoundation.org"))).status
            ≡ 0)))
    × (((test_tpm2_startup target []).0 ≡ ok tt)
        ↔ AllSucceed target (socket_command ∷ startup_command ∷ []) [])
    × (((test_tripwire_twadmin target []).0 ≡ ok tt)
        ↔ HasStatusOr 0 wrote (target (run create_cfgfile ∷ []) (run create_polfile)))
    × (((test_tripwire_init target []).0 ≡ ok tt)
        ↔ HasStatusOr 0 generated (
            target
              (run (lit "hostname") ∷ [])
              (run (tripwire_init (lit "apparmor module is loaded.")))))
sequences_lem_example = sequences_lem (some (lit "qemux86")) (lit "/tmp/x") target []

abbrev builtins : List Str
builtins = lit "open" ∷ lit "print" ∷ lit "len" ∷ []

set_up_class_unnamed_example :
    (Clamav.set_up_class builtins target [] ≡ (err (name_error (lit "os")), mkstemp ∷ []))
    × (Suricata.set_up_class builtins target [] ≡ (err (name_error (lit "os")), mkstemp ∷ []))
set_up_class_unnamed_example =
    set_up_class_unnamed builtins target [] (unfold mem str_eq lit in refl)
