-- ===== src/Suite/Platform.antt =====
-- The tests of tpm2.py, swtpm.py, ima.py and parsec.py, with their decorators.
use meta_security.Prelude.{List, [], ◌∷◌}
use meta_security.Text.{lit}
use meta_security.Suite.Defs.{
  Test, has_package, test_depends, skip_if_not_feature, skip_if_not_data_var,
}

abbrev pub decorated_tpm2_startup : Test
decorated_tpm2_startup = record {
  name = lit "tpm2.Tpm2Test.test_tpm2_startup";
  decorators =
      has_package (lit "tpm2-tools" ∷ [])
      ∷ has_package (lit "tpm2-abrmd" ∷ [])
      ∷ has_package (lit "swtpm" ∷ [])
      ∷ skip_if_not_feature (lit "tpm2")
          (lit "Test tpm2_startup requires tpm2 to be in DISTRO_FEATURES")
      ∷ test_depends (lit "ssh.SSHTest.test_ssh" ∷ [])
      ∷ [];
}

abbrev pub decorated_tpm2_pcrread : Test
decorated_tpm2_pcrread = record {
  name = lit "tpm2.Tpm2Test.test_tpm2_pcrread";
  decorators = test_depends (lit "tpm2.Tpm2Test.test_tpm2_startup" ∷ []) ∷ [];
}

abbrev pub decorated_tpm2_pkcs11 : Test
decorated_tpm2_pkcs11 = record {
  name = lit "tpm2.Tpm2Test.test_tpm2_pkcs11";
  decorators =
      has_package (lit "p11-kit" ∷ [])
      ∷ has_package (lit "tpm2-pkcs11" ∷ [])
      ∷ test_depends (lit "tpm2.Tpm2Test.test_tpm2_pcrread" ∷ [])
      ∷ [];
}

abbrev pub decorated_tpm2_swtpm_reset : Test
decorated_tpm2_swtpm_reset = record {
  name = lit "tpm2.Tpm2Test.test_tpm2_swtpm_reset";
  decorators = test_depends (lit "tpm2.Tpm2Test.test_tpm2_pkcs11" ∷ []) ∷ [];
}

abbrev pub tpm2_tests : List Test
tpm2_tests =
    decorated_tpm2_startup ∷ decorated_tpm2_pcrread ∷ decorated_tpm2_pkcs11
    ∷ decorated_tpm2_swtpm_reset ∷ []

abbrev pub decorated_swtpm2_ek_cert : Test
decorated_swtpm2_ek_cert = record {
  name = lit "swtpm.SwTpmTest.test_swtpm2_ek_cert";
  decorators =
      skip_if_not_feature (lit "tpm2")
        (lit "Test tpm2_swtpm_socket requires tpm2 to be in DISTRO_FEATURES")
      ∷ test_depends (lit "ssh.SSHTest.test_ssh" ∷ [])
      ∷ has_package (lit "swtpm" ∷ [])
      ∷ [];
}

abbrev pub swtpm_tests : List Test
swtpm_tests = decorated_swtpm2_ek_cert ∷ []

abbrev pub decorated_ima_enabled : Test
decorated_ima_enabled = record {
  name = lit "ima.IMACheck.test_ima_enabled";
  decorators = test_depends (lit "ssh.SSHTest.test_ssh" ∷ []) ∷ [];
}

abbrev pub decorated_ima_before_systemd : Test
decorated_ima_before_systemd = record {
  name = lit "ima.IMACheck.test_ima_before_systemd";
  decorators =
      skip_if_not_feature (lit "systemd") (lit "Test requires systemd to be in DISTRO_FEATURES")
      ∷ skip_if_not_data_var (lit "VIRTUAL-RUNTIME_init_manager") (lit "systemd")
          (lit "systemd is not the init manager for this image")
      ∷ test_depends (lit "ima.IMACheck.test_ima_enabled" ∷ [])
      ∷ [];
}

abbrev pub decorated_ima_hash : Test
decorated_ima_hash = record {
  name = lit "ima.IMACheck.test_ima_hash";
  decorators = test_depends (lit "ima.IMACheck.test_ima_enabled" ∷ []) ∷ [];
}

abbrev pub decorated_ima_signature : Test
decorated_ima_signature = record {
  name = lit "ima.IMACheck.test_ima_signature";
  decorators = test_depends (lit "ima.IMACheck.test_ima_enabled" ∷ []) ∷ [];
}

abbrev pub decorated_ima_overwrite : Test
decorated_ima_overwrite = record {
  name = lit "ima.IMACheck.test_ima_overwrite";
  decorators = test_depends (lit "ima.IMACheck.test_ima_enabled" ∷ []) ∷ [];
}

abbrev pub ima_tests : List Test
ima_tests =
    decorated_ima_enabled ∷ decorated_ima_before_systemd ∷ decorated_ima_hash
    ∷ decorated_ima_signature ∷ decorated_ima_overwrite ∷ []

abbrev pub decorated_all_providers : Test
decorated_all_providers = record {
  name = lit "parsec.ParsecTest.test_all_providers";
  decorators =
      has_package (lit "parsec-service" ∷ []) ∷ test_depends (lit "ssh.SSHTest.test_ssh" ∷ []) ∷ [];
}

abbrev pub decorated_tpm_provider : Test
decorated_tpm_provider = record {
  name = lit "parsec.ParsecTest.test_tpm_provider";
  decorators =
      has_package (lit "parsec-service" ∷ [])
      ∷ skip_if_not_feature (lit "tpm2")
          (lit "Test parsec_tpm_provider requires tpm2 to be in DISTRO_FEATURES")
      ∷ test_depends (lit "ssh.SSHTest.test_ssh" ∷ [])
      ∷ [];
}

abbrev pub decorated_pkcs11_provider : Test
decorated_pkcs11_provider = record {
  name = lit "parsec.ParsecTest.test_pkcs11_provider";
  decorators =
      has_package (lit "parsec-service" ∷ []) ∷ test_depends (lit "ssh.SSHTest.test_ssh" ∷ []) ∷ [];
}

abbrev pub decorated_ts_provider : Test
decorated_ts_provider = record {
  name = lit "parsec.ParsecTest.test_TS_provider";
  decorators =
      has_package (lit "parsec-service" ∷ []) ∷ test_depends (lit "ssh.SSHTest.test_ssh" ∷ []) ∷ [];
}

abbrev pub parsec_tests : List Test
parsec_tests =
    decorated_all_providers ∷ decorated_tpm_provider ∷ decorated_pkcs11_provider
    ∷ decorated_ts_provider ∷ []
