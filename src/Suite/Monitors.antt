-- ===== src/Suite/Monitors.antt =====
-- The tests of samhain.py, sssd.py, suricata.py and tripwire.py, with their decorators.
use meta_security.Prelude.{List, [], ◌∷◌}
use meta_security.Text.{lit}
use meta_security.Suite.Defs.{Test, has_package, test_depends}

abbrev pub decorated_samhain_help : Test
decorated_samhain_help = record {
  name = lit "samhain.SamhainTest.test_samhain_help";
  decorators =
      has_package (lit "samhain-standalone" ∷ [])
      ∷ test_depends (lit "ssh.SSHTest.test_ssh" ∷ [])
      ∷ [];
}

abbrev pub decorated_samhain_init_db : Test
decorated_samhain_init_db = record {
  name = lit "samhain.SamhainTest.test_samhain_init_db";
  decorators = test_depends (lit "samhain.SamhainTest.test_samhain_help" ∷ []) ∷ [];
}

abbrev pub decorated_samhain_db_check : Test
decorated_samhain_db_check = record {
  name = lit "samhain.SamhainTest.test_samhain_db_check";
  decorators = test_depends (lit "samhain.SamhainTest.test_samhain_init_db" ∷ []) ∷ [];
}

abbrev pub samhain_tests : List Test
samhain_tests = decorated_samhain_help ∷ decorated_samhain_init_db ∷ decorated_samhain_db_check ∷ []

abbrev pub decorated_sssd_help : Test
decorated_sssd_help = record {
  name = lit "sssd.SSSDTest.test_sssd_help";
  decorators = has_package (lit "sssd" ∷ []) ∷ test_depends (lit "ssh.SSHTest.test_ssh" ∷ []) ∷ [];
}

abbrev pub decorated_sssd_sssctl_conf_perms_chk : Test
decorated_sssd_sssctl_conf_perms_chk = record {
  name = lit "sssd.SSSDTest.test_sssd_sssctl_conf_perms_chk";
  decorators = test_depends (lit "sssd.SSSDTest.test_sssd_help" ∷ []) ∷ [];
}

abbrev pub decorated_sssd_sssctl_deamon : Test
decorated_sssd_sssctl_deamon = record {
  name = lit "sssd.SSSDTest.test_sssd_sssctl_deamon";
  decorators = test_depends (lit "sssd.SSSDTest.test_sssd_sssctl_conf_perms_chk" ∷ []) ∷ [];
}

abbrev pub sssd_tests : List Test
sssd_tests =
    decorated_sssd_help ∷ decorated_sssd_sssctl_conf_perms_chk ∷ decorated_sssd_sssctl_deamon ∷ []

abbrev pub decorated_suricata_help : Test
decorated_suricata_help = record {
  name = lit "suricata.SuricataTest.test_suricata_help";
  decorators =
      has_package (lit "suricata" ∷ []) ∷ test_depends (lit "ssh.SSHTest.test_ssh" ∷ []) ∷ [];
}

abbrev pub decorated_ping_openinfosecfoundation_org : Test
decorated_ping_openinfosecfoundation_org = record {
  name = lit "suricata.SuricataTest.test_ping_openinfosecfoundation_org";
  decorators = test_depends (lit "suricata.SuricataTest.test_suricata_help" ∷ []) ∷ [];
}

abbrev pub decorated_suricata_update : Test
decorated_suricata_update = record {
  name = lit "suricata.SuricataTest.test_suricata_update";
  decorators =
      has_package (lit "python3-suricata-update" ∷ [])
      ∷ test_depends (lit "suricata.SuricataTest.test_ping_openinfosecfoundation_org" ∷ [])
      ∷ [];
}

abbrev pub decorated_suricata_update_sources_list : Test
decorated_suricata_update_sources_list = record {
  name = lit "suricata.SuricataTest.test_suricata_update_sources_list";
  decorators = test_depends (lit "suricata.SuricataTest.test_suricata_update" ∷ []) ∷ [];
}

abbrev pub decorated_suricata_update_sources : Test
decorated_suricata_update_sources = record {
  name = lit "suricata.SuricataTest.test_suricata_update_sources";
  decorators =
      test_depends (lit "suricata.SuricataTest.test_suricata_update_sources_list" ∷ []) ∷ [];
}

abbrev pub decorated_suricata_update_enable_source : Test
decorated_suricata_update_enable_source = record {
  name = lit "suricata.SuricataTest.test_suricata_update_enable_source";
  decorators = test_depends (lit "suricata.SuricataTest.test_suricata_update_sources" ∷ []) ∷ [];
}

abbrev pub suricata_tests : List Test
suricata_tests =
    decorated_suricata_help ∷ decorated_ping_openinfosecfoundation_org ∷ decorated_suricata_update
    ∷ decorated_suricata_update_sources_list ∷ decorated_suricata_update_sources
    ∷ decorated_suricata_update_enable_source ∷ []

abbrev pub decorated_tripwire_help : Test
decorated_tripwire_help = record {
  name = lit "tripwire.TripwireTest.test_tripwire_help";
  decorators =
      has_package (lit "tripwire" ∷ []) ∷ test_depends (lit "ssh.SSHTest.test_ssh" ∷ []) ∷ [];
}

abbrev pub decorated_tripwire_twinstall : Test
decorated_tripwire_twinstall = record {
  name = lit "tripwire.TripwireTest.test_tripwire_twinstall";
  decorators = test_depends (lit "tripwire.TripwireTest.test_tripwire_help" ∷ []) ∷ [];
}

abbrev pub decorated_tripwire_twadmin : Test
decorated_tripwire_twadmin = record {
  name = lit "tripwire.TripwireTest.test_tripwire_twadmin";
  decorators = test_depends (lit "tripwire.TripwireTest.test_tripwire_twinstall" ∷ []) ∷ [];
}

abbrev pub decorated_tripwire_init : Test
decorated_tripwire_init = record {
  name = lit "tripwire.TripwireTest.test_tripwire_init";
  decorators = test_depends (lit "tripwire.TripwireTest.test_tripwire_twadmin" ∷ []) ∷ [];
}

abbrev pub tripwire_tests : List Test
tripwire_tests =
    decorated_tripwire_help ∷ decorated_tripwire_twinstall ∷ decorated_tripwire_twadmin
    ∷ decorated_tripwire_init ∷ []
