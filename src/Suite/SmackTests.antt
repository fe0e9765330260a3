-- ===== src/Suite/SmackTests.antt =====
-- The tests of smack.py, with their decorators.
use meta_security.Prelude.{List, [], ◌∷◌}
use meta_security.Text.{lit}
use meta_security.Suite.Defs.{Test, has_package, test_depends, skip_if_not_feature}

abbrev pub decorated_smack_basic : Test
decorated_smack_basic = record {
  name = lit "smack.SmackBasicTest.test_smack_basic";
  decorators =
      skip_if_not_feature (lit "smack") (lit "Test requires smack to be in DISTRO_FEATURES")
      ∷ has_package (lit "smack-test" ∷ [])
      ∷ test_depends (lit "ssh.SSHTest.test_ssh" ∷ [])
      ∷ [];
}

abbrev pub decorated_add_access_label : Test
decorated_add_access_label = record {
  name = lit "smack.SmackBasicTest.test_add_access_label";
  decorators = test_depends (lit "smack.SmackBasicTest.test_smack_basic" ∷ []) ∷ [];
}

abbrev pub decorated_add_exec_label : Test
decorated_add_exec_label = record {
  name = lit "smack.SmackBasicTest.test_add_exec_label";
  decorators = test_depends (lit "smack.SmackBasicTest.test_smack_basic" ∷ []) ∷ [];
}

abbrev pub decorated_add_mmap_label : Test
decorated_add_mmap_label = record {
  name = lit "smack.SmackBasicTest.test_add_mmap_label";
  decorators = test_depends (lit "smack.SmackBasicTest.test_smack_basic" ∷ []) ∷ [];
}

abbrev pub decorated_add_transmutable : Test
decorated_add_transmutable = record {
  name = lit "smack.SmackBasicTest.test_add_transmutable";
  decorators = test_depends (lit "smack.SmackBasicTest.test_smack_basic" ∷ []) ∷ [];
}

abbrev pub decorated_privileged_change_self_label : Test
decorated_privileged_change_self_label = record {
  name = lit "smack.SmackBasicTest.test_privileged_change_self_label";
  decorators = test_depends (lit "smack.SmackBasicTest.test_smack_basic" ∷ []) ∷ [];
}

abbrev pub decorated_unprivileged_change_self_label : Test
decorated_unprivileged_change_self_label = record {
  name = lit "smack.SmackBasicTest.test_unprivileged_change_self_label";
  decorators = test_depends (lit "smack.SmackBasicTest.test_smack_basic" ∷ []) ∷ [];
}

abbrev pub decorated_unprivileged_change_file_label : Test
decorated_unprivileged_change_file_label = record {
  name = lit "smack.SmackBasicTest.test_unprivileged_change_file_label";
  decorators = test_depends (lit "smack.SmackBasicTest.test_smack_basic" ∷ []) ∷ [];
}

abbrev pub decorated_load_smack_rule : Test
decorated_load_smack_rule = record {
  name = lit "smack.SmackBasicTest.test_load_smack_rule";
  decorators = test_depends (lit "smack.SmackBasicTest.test_smack_basic" ∷ []) ∷ [];
}

abbrev pub decorated_smack_onlycap : Test
decorated_smack_onlycap = record {
  name = lit "smack.SmackBasicTest.test_smack_onlycap";
  decorators = test_depends (lit "smack.SmackBasicTest.test_smack_basic" ∷ []) ∷ [];
}

abbrev pub decorated_smack_netlabel : Test
decorated_smack_netlabel = record {
  name = lit "smack.SmackBasicTest.test_smack_netlabel";
  decorators = test_depends (lit "smack.SmackBasicTest.test_smack_basic" ∷ []) ∷ [];
}

abbrev pub decorated_smack_cipso : Test
decorated_smack_cipso = record {
  name = lit "smack.SmackBasicTest.test_smack_cipso";
  decorators = test_depends (lit "smack.SmackBasicTest.test_smack_basic" ∷ []) ∷ [];
}

abbrev pub decorated_smack_direct : Test
decorated_smack_direct = record {
  name = lit "smack.SmackBasicTest.test_smack_direct";
  decorators = test_depends (lit "smack.SmackBasicTest.test_smack_basic" ∷ []) ∷ [];
}

abbrev pub decorated_smack_ambient : Test
decorated_smack_ambient = record {
  name = lit "smack.SmackBasicTest.test_smack_ambient";
  decorators = test_depends (lit "smack.SmackBasicTest.test_smack_basic" ∷ []) ∷ [];
}

abbrev pub decorated_smackload : Test
decorated_smackload = record {
  name = lit "smack.SmackBasicTest.test_smackload";
  decorators = test_depends (lit "smack.SmackBasicTest.test_smack_basic" ∷ []) ∷ [];
}

abbrev pub decorated_smackcipso : Test
decorated_smackcipso = record {
  name = lit "smack.SmackBasicTest.test_smackcipso";
  decorators = test_depends (lit "smack.SmackBasicTest.test_smack_basic" ∷ []) ∷ [];
}

abbrev pub decorated_smack_enforce_file_access : Test
decorated_smack_enforce_file_access = record {
  name = lit "smack.SmackBasicTest.test_smack_enforce_file_access";
  decorators = test_depends (lit "smack.SmackBasicTest.test_smack_basic" ∷ []) ∷ [];
}

abbrev pub decorated_smack_transmute_dir : Test
decorated_smack_transmute_dir = record {
  name = lit "smack.SmackBasicTest.test_smack_transmute_dir";
  decorators = test_depends (lit "smack.SmackBasicTest.test_smack_basic" ∷ []) ∷ [];
}

abbrev pub decorated_smack_tcp_sockets : Test
decorated_smack_tcp_sockets = record {
  name = lit "smack.SmackBasicTest.test_smack_tcp_sockets";
  decorators = test_depends (lit "smack.SmackBasicTest.test_smack_basic" ∷ []) ∷ [];
}

abbrev pub decorated_smack_udp_sockets : Test
decorated_smack_udp_sockets = record {
  name = lit "smack.SmackBasicTest.test_smack_udp_sockets";
  decorators = test_depends (lit "smack.SmackBasicTest.test_smack_basic" ∷ []) ∷ [];
}

abbrev pub decorated_smack_labels : Test
decorated_smack_labels = record {
  name = lit "smack.SmackBasicTest.test_smack_labels";
  decorators = test_depends (lit "smack.SmackBasicTest.test_smack_basic" ∷ []) ∷ [];
}

abbrev pub smack_tests : List Test
smack_tests =
    decorated_smack_basic ∷ decorated_add_access_label ∷ decorated_add_exec_label
    ∷ decorated_add_mmap_label ∷ decorated_add_transmutable ∷ decorated_privileged_change_self_label
    ∷ decorated_unprivileged_change_self_label ∷ decorated_unprivileged_change_file_label
    ∷ decorated_load_smack_rule ∷ decorated_smack_onlycap ∷ decorated_smack_netlabel
    ∷ decorated_smack_cipso ∷ decorated_smack_direct ∷ decorated_smack_ambient ∷ decorated_smackload
    ∷ decorated_smackcipso ∷ decorated_smack_enforce_file_access ∷ decorated_smack_transmute_dir
    ∷ decorated_smack_tcp_sockets ∷ decorated_smack_udp_sockets ∷ decorated_smack_labels ∷ []
