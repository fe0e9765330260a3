-- ===== src/Services/Contract.antt =====
-- What the tests of these files and of tpm2.py and swtpm.py promise, as one table of their commands
-- and conditions, and the tests that need more than one command.
use meta_security.Prelude.{◌≡◌, ◌↔◌, ℕ, List, [], ◌∷◌, ◌++◌, Option, none, ok, All, All-append}
use meta_security.Text.{Str, lit}
use meta_security.Oeqa.{run, copy_to, History, Target, Reply, M}
use meta_security.Oeqa.Verdict.{Verdict, HasStatus, HasStatusOr, HasStatusOrLacks}
use meta_security.Services.Aide.{test_aide_help, test_aide_dbinit, aide_verdicts}
use meta_security.Services.Apparmor.{
  test_apparmor_help, test_apparmor_aa_status, test_apparmor_aa_complain, test_apparmor_aa_enforce,
  apparmor_verdicts,
}
use meta_security.Services.Checksec.{
  test_checksec_help, test_checksec_xml, test_checksec_fortify, checksec_verdicts,
}
use meta_security.Services.Clamav.{
  test_freshclam_help, test_freshclam_download, test_ping_clamav_net, clamav_verdicts,
}
use meta_security.Services.Firejail.{test_firejail_basic, firejail_verdicts}
use meta_security.Services.Samhain.{
  append_hosts, appended, machine_of, test_samhain_help, test_samhain_init_db,
  test_samhain_db_check, samhain_verdicts,
}
use meta_security.Services.Sssd.{
  test_sssd_help, test_sssd_sssctl_conf_perms_chk, test_sssd_sssctl_deamon, sssd_verdicts,
}
use meta_security.Services.Suricata.{
  test_suricata_help, test_suricata_update, test_suricata_update_sources_list,
  test_suricata_update_sources, test_suricata_update_enable_source,
  test_ping_openinfosecfoundation_org, suricata_verdicts,
}
use meta_security.Services.Tripwire.{
  test_tripwire_help, test_tripwire_twinstall, test_tripwire_twadmin, test_tripwire_init, generated,
  wrote, create_cfgfile, create_polfile, tripwire_init, tripwire_verdicts,
}
use meta_security.Services.Resolv.{ping_host_lem, resolv_conf, removed, copied}
use meta_security.Tpm.Cases.{
  test_tpm2_startup, AllSucceed, socket_command, startup_command, test_tpm2_startup-AllSucceed,
  test_tpm2_pkcs11, test_tpm2_swtpm_reset, tpm2_verdicts,
}

-- When a reply is good: its status is the number; or it holds the text; or it lacks the text.
pub data Condition : Type 0 where
  status : ℕ → Condition
  status_or status_or_lacks : ℕ → Str → Condition

abbrev pub Holds : Condition → Reply → Type 0
Holds (status n) = HasStatus n
Holds (status_or n p) = HasStatusOr n p
Holds (status_or_lacks n p) = HasStatusOrLacks n p

-- A test of one command: what the command is to be, when its reply is good, and the code.
pub record Promise : Type 0 where
  pub command : Str
  pub good : Condition
  pub test : M (Unit {0})

abbrev promise : Str → Condition → M (Unit {0}) → Promise
promise c g m = record { command = c; good = g; test = m }

abbrev pub intrusion : List Promise
intrusion =
    promise (lit "aide --help") (status 0) test_aide_help
    ∷ promise (lit "aide --init") (status_or 0 (lit "Number of entries:")) test_aide_dbinit
    ∷ promise (lit "samhain -t init") (status_or 0 (lit "FAILED: 0 ")) test_samhain_init_db
    ∷ promise (lit "samhain -t check") (status_or 0 (lit "FAILED: 0 ")) test_samhain_db_check
    ∷ promise (lit "tripwire --help") (status 8) test_tripwire_help
    ∷ promise (lit "/etc/tripwire/twinstall.sh") (status_or 0 generated) test_tripwire_twinstall
    ∷ []

abbrev loaded : Str
loaded = lit "apparmor module is loaded."

abbrev pub confinement : List Promise
confinement =
    promise (lit "aa-status --help") (status 0) test_apparmor_help
    ∷ promise (lit "aa-status") (status_or 0 loaded) test_apparmor_aa_status
    ∷ promise (lit "aa-complain /etc/apparmor.d/*") (status_or 0 loaded) test_apparmor_aa_complain
    ∷ promise (lit "aa-enforce /etc/apparmor.d/*") (status_or 0 loaded) test_apparmor_aa_enforce
    ∷ promise (lit "firejail --help") (status 0) test_firejail_basic
    ∷ promise (lit "checksec --help ") (status 0) test_checksec_help
    ∷ promise (lit "checksec --format=xml --proc=1") (status 0) test_checksec_xml
    ∷ promise (lit "checksec --fortify-proc 1") (status_or 1 (lit "FORTIFY_SOURCE support:"))
        test_checksec_fortify
    ∷ []

abbrev pub network : List Promise
network =
    promise (lit "freshclam --help ") (status 0) test_freshclam_help
    ∷ promise (lit "freshclam --show-progress") (status 0) test_freshclam_download
    ∷ promise (lit "suricata --help") (status 1) test_suricata_help
    ∷ promise (lit "suricata-update") (status 0) test_suricata_update
    ∷ promise (lit "suricata-update list-sources") (status 0) test_suricata_update_sources_list
    ∷ promise (lit "suricata-update update-sources") (status 0) test_suricata_update_sources
    ∷ promise (lit "suricata-update enable-source oisf/trafficid") (status 0)
        test_suricata_update_enable_source
    ∷ promise (lit "sssctl --help") (status 1) test_sssd_help
    ∷ promise (lit "sssctl domain-status")
        (status_or_lacks 0 (lit "ConfDB initialization has failed")) test_sssd_sssctl_conf_perms_chk
    ∷ promise (lit "sssctl domain-list")
        (status_or_lacks 0 (lit "No domains configured, fatal error!")) test_sssd_sssctl_deamon
    ∷ promise (lit "p11-kit list-modules -v") (status 0) test_tpm2_pkcs11
    ∷ promise (lit "swtpm_ioctl -i --tcp :2322") (status 0) test_tpm2_swtpm_reset
    ∷ []

-- All tests of one command.
abbrev pub promises : List Promise
promises = intrusion ++ (confinement ++ network)

abbrev pub IsKept : Target → History → Promise → Type 0
IsKept t h x = Verdict t h x.test x.command (Holds x.good)

intrusion-IsKept : (t : Target) (h : History) → All (IsKept t h) intrusion
intrusion-IsKept t h =
    let (a, b) = aide_verdicts t h in
    let (_, c, d) = samhain_verdicts none t h in
    let (e, f, _, _) = tripwire_verdicts t h in (a, (b, (c, (d, (e, (f, tt))))))

confinement-IsKept : (t : Target) (h : History) → All (IsKept t h) confinement
confinement-IsKept t h =
    let (a, b, c, d) = apparmor_verdicts t h in
    let (e, f, g) = checksec_verdicts t h in
    (a, (b, (c, (d, (firejail_verdicts t h, (e, (f, (g, tt))))))))

network-IsKept : (t : Target) (h : History) → All (IsKept t h) network
network-IsKept t h =
    let (a, b) = clamav_verdicts t h in
    let (c, d, e, f, g) = suricata_verdicts t h in
    let (i, j, k) = sssd_verdicts t h in
    let (l, m) = tpm2_verdicts t h in (a, (b, (c, (d, (e, (f, (g, (i, (j, (k, (l, (m, tt))))))))))))

-- Every test of the table sends its command and nothing else, and passes exactly when the reply has
-- the status of the table or, where the table gives a text too, holds it or lacks it.
pub promises-IsKept : (t : Target) (h : History) → All (IsKept t h) promises
promises-IsKept t h =
    All-append (IsKept t h) intrusion (confinement ++ network) (intrusion-IsKept t h)
      (All-append (IsKept t h) confinement network (confinement-IsKept t h) (network-IsKept t h))

-- The tests of several commands. The help test of samhain and `test_tpm2_startup` pass exactly when
-- both their commands succeed. The ping test of ClamAV passes exactly when the resolver's
-- configuration can be copied and a ping of database.clamav.net succeeds, and that of Suricata when
-- it can be copied and a ping of openinfosecfoundation.org succeeds. `twadmin` is judged by its second run alone, and the last
-- test of tripwire by a command with the name that `hostname` has printed, whatever its status.
pub sequences_lem :
    (machine : Option Str) (tmp_path : Str) (t : Target) (h : History)
    → (((test_samhain_help machine t h).0 ≡ ok tt) ↔ (
        ((t h (append_hosts (machine_of machine))).status ≡ 0)
        × ((t (appended machine h) (run (lit "samhain --help"))).status ≡ 0)))
      × (((test_ping_clamav_net tmp_path t h).0 ≡ ok tt) ↔ (
          ((t (removed h) (copy_to tmp_path resolv_conf)).status ≡ 0)
          × ((t (copied tmp_path h) (run (lit "ping -c 1 database.clamav.net"))).status ≡ 0)))
      × (((test_ping_openinfosecfoundation_org tmp_path t h).0 ≡ ok tt) ↔ (
          ((t (removed h) (copy_to tmp_path resolv_conf)).status ≡ 0)
          × ((t (copied tmp_path h) (run (lit "ping -c 1 openinfosecfoundation.org"))).status ≡ 0)))
      × (((test_tpm2_startup t h).0 ≡ ok tt)
          ↔ AllSucceed t (socket_command ∷ startup_command ∷ []) h)
      × (((test_tripwire_twadmin t h).0 ≡ ok tt)
          ↔ HasStatusOr 0 wrote (t (h ++ (run create_cfgfile ∷ [])) (run create_polfile)))
      × (((test_tripwire_init t h).0 ≡ ok tt)
          ↔ HasStatusOr 0 generated (
              t
                (h ++ (run (lit "hostname") ∷ []))
                (run (tripwire_init (t h (run (lit "hostname"))).output))))
unfolding test_ping_clamav_net test_ping_openinfosecfoundation_org lit
sequences_lem machine tmp_path t h =
    let (a, _, _) = samhain_verdicts machine t h in
    let (_, _, c, d) = tripwire_verdicts t h in
    (
      a,
      ping_host_lem tmp_path (lit "database.clamav.net") t h,
      ping_host_lem tmp_path (lit "openinfosecfoundation.org") t h,
      test_tpm2_startup-AllSucceed t h,
      c,
      d,
    )
