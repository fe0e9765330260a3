-- ===== src/Suite/Services.antt =====
-- The tests of aide.py, apparmor.py, checksec.py, clamav.py and firejail.py, with their decorators.
use meta_security.Prelude.{List, [], ◌∷◌}
use meta_security.Text.{lit}
use meta_security.Suite.Defs.{Test, has_package, test_depends}

abbrev pub decorated_aide_help : Test
decorated_aide_help = record {
  name = lit "aide.AideTest.test_aide_help";
  decorators = has_package (lit "aide" ∷ []) ∷ test_depends (lit "ssh.SSHTest.test_ssh" ∷ []) ∷ [];
}

abbrev pub decorated_aide_dbinit : Test
decorated_aide_dbinit = record {
  name = lit "aide.AideTest.test_aide_dbinit";
  decorators = test_depends (lit "aide.AideTest.test_aide_help" ∷ []) ∷ [];
}

abbrev pub aide_tests : List Test
aide_tests = decorated_aide_help ∷ decorated_aide_dbinit ∷ []

abbrev pub decorated_apparmor_help : Test
decorated_apparmor_help = record {
  name = lit "apparmor.ApparmorTest.test_apparmor_help";
  decorators =
      has_package (lit "apparmor" ∷ []) ∷ test_depends (lit "ssh.SSHTest.test_ssh" ∷ []) ∷ [];
}

abbrev pub decorated_apparmor_aa_status : Test
decorated_apparmor_aa_status = record {
  name = lit "apparmor.ApparmorTest.test_apparmor_aa_status";
  decorators = test_depends (lit "apparmor.ApparmorTest.test_apparmor_help" ∷ []) ∷ [];
}

abbrev pub decorated_apparmor_aa_complain : Test
decorated_apparmor_aa_complain = record {
  name = lit "apparmor.ApparmorTest.test_apparmor_aa_complain";
  decorators = test_depends (lit "apparmor.ApparmorTest.test_apparmor_aa_status" ∷ []) ∷ [];
}

abbrev pub decorated_apparmor_aa_enforce : Test
decorated_apparmor_aa_enforce = record {
  name = lit "apparmor.ApparmorTest.test_apparmor_aa_enforce";
  decorators = test_depends (lit "apparmor.ApparmorTest.test_apparmor_aa_complain" ∷ []) ∷ [];
}

abbrev pub apparmor_tests : List Test
apparmor_tests =
    decorated_apparmor_help ∷ decorated_apparmor_aa_status ∷ decorated_apparmor_aa_complain
    ∷ decorated_apparmor_aa_enforce ∷ []

abbrev pub decorated_checksec_help : Test
decorated_checksec_help = record {
  name = lit "checksec.CheckSecTest.test_checksec_help";
  decorators =
      has_package (lit "checksec" ∷ []) ∷ test_depends (lit "ssh.SSHTest.test_ssh" ∷ []) ∷ [];
}

abbrev pub decorated_checksec_xml : Test
decorated_checksec_xml = record {
  name = lit "checksec.CheckSecTest.test_checksec_xml";
  decorators = test_depends (lit "checksec.CheckSecTest.test_checksec_help" ∷ []) ∷ [];
}

abbrev pub decorated_checksec_fortify : Test
decorated_checksec_fortify = record {
  name = lit "checksec.CheckSecTest.test_checksec_fortify";
  decorators =
      test_depends (lit "checksec.CheckSecTest.test_checksec_xml" ∷ [])
      ∷ has_package (lit "binutils" ∷ [])
      ∷ [];
}

abbrev pub checksec_tests : List Test
checksec_tests = decorated_checksec_help ∷ decorated_checksec_xml ∷ decorated_checksec_fortify ∷ []

abbrev pub decorated_freshclam_help : Test
decorated_freshclam_help = record {
  name = lit "clamav.ClamavTest.test_freshclam_help";
  decorators =
      has_package (lit "clamav" ∷ []) ∷ test_depends (lit "ssh.SSHTest.test_ssh" ∷ []) ∷ [];
}

abbrev pub decorated_ping_clamav_net : Test
decorated_ping_clamav_net = record {
  name = lit "clamav.ClamavTest.test_ping_clamav_net";
  decorators =
      test_depends (lit "clamav.ClamavTest.test_freshclam_help" ∷ [])
      ∷ has_package (lit "openssh-scp" ∷ lit "dropbear" ∷ [])
      ∷ [];
}

abbrev pub decorated_freshclam_download : Test
decorated_freshclam_download = record {
  name = lit "clamav.ClamavTest.test_freshclam_download";
  decorators = test_depends (lit "clamav.ClamavTest.test_ping_clamav_net" ∷ []) ∷ [];
}

abbrev pub clamav_tests : List Test
clamav_tests =
    decorated_freshclam_help ∷ decorated_ping_clamav_net ∷ decorated_freshclam_download ∷ []

abbrev pub decorated_firejail_basic : Test
decorated_firejail_basic = record {
  name = lit "firejail.FirejailTest.test_firejail_basic";
  decorators =
      has_package (lit "firejail" ∷ [])
      ∷ has_package (lit "libseccomp" ∷ [])
      ∷ test_depends (lit "ssh.SSHTest.test_ssh" ∷ [])
      ∷ [];
}

abbrev pub firejail_tests : List Test
firejail_tests = decorated_firejail_basic ∷ []
