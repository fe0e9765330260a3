-- ===== src/Ima/Tests.antt =====
-- The theorems on `IMACheck` at concrete targets.
use meta_security.Prelude.{◌≡◌, ◌≢◌, ◌↔◌, ◌≤◌, refl, List, [], ◌∷◌, ◌++◌, ok, length}
use meta_security.Text.{Str, lit, str_eq, mem, split_on, words, is_space}
use meta_security.Text.Numbers.{decimal}
use meta_security.Oeqa.{Action, Target}
use meta_security.Ima.Defs.{
  ImaClass, blacklist, find_binaries, set_up_class, dmesg, ima_search, systemd_search,
  maximum_tries, test_ima_before_systemd, test_ima_hash,
}
use meta_security.Ima.Counting.{
  overwritten, test_of, AllRejected, test_of-AllRejected, overwrite_action, verify_action,
}
use meta_security.Ima.Order.{test_ima_before_systemd_lem}
use meta_security.Ima.Sends.{visits, test_of_sends, test_ima_hash_bounded}
use meta_security.Ima.Hash.{Confirms, start, test_ima_hash-Confirms}

-- Every command fails and prints one path.
abbrev prints : Str → Target
prints path h a = record { status = 1; output = path }

abbrev two_of : Str → ImaClass
two_of path = record { binaries = path ∷ path ∷ []; total = 2 }

test_of-AllRejected_example :
    ((test_of overwritten (two_of (lit "/bin/ls")) (prints (lit "/bin/ls")) []).0 ≢ ok tt)
    ↔ AllRejected (prints (lit "/bin/ls")) overwritten (lit "/bin/ls" ∷ lit "/bin/ls" ∷ []) []
test_of-AllRejected_example =
    test_of-AllRejected (prints (lit "/bin/ls")) overwritten (two_of (lit "/bin/ls")) [] []
      (unfold set_up_class find_binaries split_on lit in refl)

-- One of these binaries is on the blacklist.
abbrev listed : ImaClass
listed = record { binaries = lit "/bin/ls" ∷ lit "/bin/su.shadow" ∷ []; total = 2 }

test_of_sends_example :
    (test_of overwritten listed (prints []) []).1
    ≡ overwrite_action (lit "/bin/ls") ∷ verify_action (lit "/bin/ls") ∷ []
unfolding visits blacklist mem str_eq lit
test_of_sends_example = test_of_sends (prints []) overwritten listed []

abbrev line_of : List Action → Str
line_of [] = decimal 3 ++ (b':' ∷ lit " ima: ready")
line_of (a ∷ h) = decimal 5 ++ (b':' ∷ lit " systemd running")

abbrev booted : Target
booted h a = record { status = 0; output = line_of h }

test_ima_before_systemd_lem_example : ((test_ima_before_systemd booted []).0 ≡ ok tt) ↔ (
    ((booted [] (dmesg ima_search)).status ≡ 0)
    × ((booted (dmesg ima_search ∷ []) (dmesg systemd_search)).status ≡ 0)
    × (3 ≤ 5))
test_ima_before_systemd_lem_example =
    test_ima_before_systemd_lem booted [] 3 5 (lit " ima: ready") (lit " systemd running") refl refl

abbrev hashed : Target
hashed h a = record { status = 0; output = lit "ab  /etc/ld.so.cache" }

test_ima_hash-Confirms_example :
    ((test_ima_hash hashed []).0 ≡ ok tt) ↔ Confirms hashed (lit "ab") maximum_tries (start [])
test_ima_hash-Confirms_example =
    test_ima_hash-Confirms hashed [] (lit "ab") (unfold words is_space lit in refl)

test_ima_hash_bounded_example :
    (2 ≤ length (test_ima_hash hashed []).1) × (length (test_ima_hash hashed []).1 ≤ 9)
test_ima_hash_bounded_example = test_ima_hash_bounded hashed []
