-- ===== src/Smack/Defs.antt =====
-- The tests of `SmackBasicTest` that write to the files of the kernel and read them back, and those
-- that run a script or change a label with notroot.py. Every test has an instance of its own, so it
-- sees the attributes that `setUpClass` has set on the class.
use meta_security.Prelude.{ℕ, zero, suc, [], ◌++◌}
use meta_security.Text.{Str, lit, str_eq, strip}
use meta_security.Text.Numbers.{decimal}
use meta_security.Oeqa.{
  Message, text, run, Action, Reply, M, ◌>>=◌, ◌>>◌, pure, act, assert_true, assert_status,
  assert_in,
}

-- `"a" * MAX_LABEL_LEN`
repeat : ℕ → Str → Str
repeat zero s = []
repeat (suc n) s = s ++ repeat n s

unfoldable pub smack_label : Str
unfolding repeat
smack_label = repeat 255 (lit "a")

pub record SmackClass : Type 0 where
  pub current_label : Str
  pub uid : ℕ
  pub smack_path : Str

unfoldable pub set_up_class : M SmackClass
set_up_class = do
  r ← act (run (lit "grep smack /proc/mounts | awk '{print $2}'"))
  pure (record { current_label = []; uid = 1000; smack_path = r.output })

-- The label is set on the instance of this test.
unfoldable pub test_smack_basic : SmackClass → M SmackClass
test_smack_basic c = do
  r ← act (run (lit "cat /proc/self/attr/current"))
  pure (record c { current_label = strip r.output })

-- `"/usr/sbin/notroot.py %d %s %s" % (uid, label, command)`
abbrev pub notroot : ℕ → Str → Str → Str
notroot uid label command =
    lit "/usr/sbin/notroot.py " ++ (decimal uid ++ (lit " " ++ (label ++ (lit " " ++ command))))

unfoldable pub test_privileged_change_self_label : SmackClass → M (Unit {0})
test_privileged_change_self_label c = do
  r ← act (
      run (
        notroot 0 c.current_label (
          lit
            "/bin/sh -c 'echo PRIVILEGED >/proc/self/attr/current'; cat /proc/self/attr/current")))
  assert_in (lit "PRIVILEGED") r.output
      (text (lit "Privilege process did not change label.Output: " ++ r.output))

unfoldable pub test_unprivileged_change_self_label : SmackClass → M (Unit {0})
test_unprivileged_change_self_label c = do
  r ← act (
      run (
        notroot c.uid c.current_label
          (lit "/bin/sh -c 'echo " ++ (smack_label ++ lit " >/proc/self/attr/current'"))
        ++ lit " 2>&1 | grep 'Operation not permitted'"))
  assert_status r.status 0
      (text (lit "Unprivileged process should not be able to change its label"))

-- `'echo -n "%s" > %s/…'` and the like, with single quotes
abbrev pub write_to : SmackClass → Str → Str → Action
write_to c rule file = run (lit "echo -n '" ++ (rule ++ (lit "' > " ++ (c.smack_path ++ file))))

abbrev pub write_line : SmackClass → Str → Str → Action
write_line c value file = run (lit "echo '" ++ (value ++ (lit "' > " ++ (c.smack_path ++ file))))

abbrev pub read_from : SmackClass → Str → Action
read_from c file = run (lit "cat " ++ (c.smack_path ++ file))

unfoldable pub test_smack_onlycap : M (Unit {0})
test_smack_onlycap = do
  r ← act (run (lit "sh /usr/sbin/test_smack_onlycap.sh"))
  assert_status r.status 0 (text r.output)

abbrev pub netlabel_message : Reply → Message
netlabel_message r = text (lit "Did not find expected label in output: " ++ r.output)

unfoldable pub test_smack_netlabel : SmackClass → M (Unit {0})
test_smack_netlabel c = do
  a ← act (write_to c (lit "191.191.191.191 TheOne") (lit "/netlabel"))
  assert_status a.status 0 (text (lit "Netlabel /32 could not be set. Output: " ++ a.output))
  b ← act (read_from c (lit "/netlabel"))
  assert_in (lit "191.191.191.191/32 TheOne") b.output (netlabel_message b)
  d ← act (write_to c (lit "253.253.253.0/24 TheOther") (lit "/netlabel"))
  assert_status d.status 0 (text (lit "Netlabel /24 could not be set. Output: " ++ d.output))
  e ← act (read_from c (lit "/netlabel"))
  assert_in (lit "253.253.253.0/24 TheOther") e.output (netlabel_message e)

-- One of the three rules of `test_smack_cipso`: the text to write, the letter of its name, and what
-- the kernel shows of it.
unfoldable pub cipso_rule : SmackClass → Str → Str → Str → M (Unit {0})
cipso_rule c rule letter shown = do
  a ← act (write_to c rule (lit "/cipso"))
  assert_status a.status 0
      (text (lit "Could not set cipso label " ++ (letter ++ (lit ". Ouput: " ++ a.output))))
  b ←
      act (
        run (lit "cat " ++ (c.smack_path ++ (lit "/cipso | grep '^TheOne" ++ (letter ++ lit "'")))))
  assert_status b.status 0 (text (lit "Cipso rule " ++ (letter ++ lit " was not set")))
  assert_in shown b.output (text (lit "Rule " ++ (letter ++ lit " was not set correctly")))

unfoldable pub test_smack_cipso : SmackClass → M (Unit {0})
unfolding cipso_rule
test_smack_cipso c =
    cipso_rule c (lit "TheOneA                 2   0   ") (lit "A") (lit " 2")
    >> (cipso_rule c (lit "TheOneB                 3   1   55  ") (lit "B") (lit "/55")
        >> cipso_rule c (lit "TheOneC                 4   2   17  33  ") (lit "C") (lit "/17,33"))

unfoldable pub test_smack_direct : SmackClass → M (Unit {0})
test_smack_direct c = do
  initial ← act (read_from c (lit "/direct"))
  a ← act (write_line c (lit "17") (lit "/direct"))
  assert_status a.status 0 (text (lit "Could not set smack direct. Output: " ++ a.output))
  new ← act (read_from c (lit "/direct"))
  act (write_line c initial.output (lit "/direct"))
  assert_true (str_eq (lit "17") (strip new.output))
      (text (lit "Smack direct label does not match."))

abbrev pub smackload_rule : Str
smackload_rule = lit "testobject testsubject rwx"

unfoldable pub test_smackload : SmackClass → M (Unit {0})
test_smackload c = do
  act (run (lit "echo -n '" ++ (smackload_rule ++ lit "' > /tmp/rules")))
  a ← act (run (lit "smackload /tmp/rules"))
  assert_status a.status 0 (text (lit "Smackload failed to load rule. Output: " ++ a.output))
  b ←
      act (
        run (lit "cat " ++ (c.smack_path ++ (lit "/load | grep '" ++ (smackload_rule ++ lit "'")))))
  assert_status b.status 0 (text (lit "Smackload rule was loaded correctly"))

unfoldable pub test_smackcipso : SmackClass → M (Unit {0})
test_smackcipso c = do
  a ← act (run (lit "echo 'cipsolabel                  2   2   ' | smackcipso"))
  assert_status a.status 0 (text (lit "Smackcipso failed to load rule. Output: " ++ a.output))
  b ← act (run (lit "cat " ++ (c.smack_path ++ lit "/cipso | grep 'cipsolabel'")))
  assert_status b.status 0 (text (lit "smackcipso rule was loaded correctly"))
  assert_in (lit "2/2") b.output (text (lit "Rule was not set correctly. Got: " ++ b.output))

unfoldable pub test_smack_enforce_file_access : M (Unit {0})
test_smack_enforce_file_access = do
  r ← act (run (lit "sh /usr/sbin/smack_test_file_access.sh"))
  assert_status r.status 0 (text r.output)

unfoldable pub test_smack_transmute_dir : M (Unit {0})
test_smack_transmute_dir = do
  initial ← act (run (lit "cat /proc/self/attr/current"))
  act (run (lit "mkdir -p /tmp/smack_transmute_dir"))
  act (run (lit "chsmack -a transmute_label /tmp/smack_transmute_dir"))
  act (run (lit "chsmack -t /tmp/smack_transmute_dir"))
  act (run (lit "echo -n '" ++ (initial.output ++ lit " transmute_label rwxat' | smackload")))
  act (run (lit "touch /tmp/smack_transmute_dir/test"))
  r ← act (run (lit "chsmack /tmp/smack_transmute_dir/test"))
  assert_in (lit "access=\"transmute_label\"") r.output
      (text (lit "Did not get expected label. Output: " ++ r.output))

unfoldable pub test_smack_tcp_sockets : M (Unit {0})
test_smack_tcp_sockets = do
  r ← act (run (lit "sh /usr/sbin/test_smack_tcp_sockets.sh"))
  assert_status r.status 0 (text r.output)

unfoldable pub test_smack_udp_sockets : M (Unit {0})
test_smack_udp_sockets = do
  r ← act (run (lit "sh /usr/sbin/test_smack_udp_sockets.sh"))
  assert_status r.status 0 (text r.output)
