-- ===== src/Services/Resolv.antt =====
-- The resolver file that `setUpClass` of lib/oeqa/runtime/cases/clamav.py and suricata.py writes, and
-- the ping test of both. `names` are the global names that the module can use.
use meta_security.Prelude.{◌≡◌, ◌≢◌, ◌↔◌, true, false, List, [], ◌∷◌, ◌++◌, arith, ok, err}
use meta_security.Text.{Str, lit, mem}
use meta_security.Oeqa.{
  text, name_error, run, copy_to, mkstemp, write_file, remove_file, History, Target, M, ◌>>=◌, ◌>>◌,
  pure, act, assert_status,
}
use meta_security.Oeqa.Verdict.{use_name}

-- What the three pairs of `f.write` put into the file.
unfoldable pub resolv : Str
resolv = lit "nameserver 8.8.8.8\nnameserver 8.8.4.4\nnameserver 127.0.0.1\n"

-- `setUpClass`: the path of the temporary file.
unfoldable pub write_resolv : List Str → M Str
write_resolv names = do
  r ← act mkstemp
  use_name names (lit "os")
  act (write_file r.output resolv)
  pure r.output

-- `tearDownClass`
unfoldable pub remove_resolv : List Str → Str → M (Unit {0})
remove_resolv names tmp_path = do use_name names (lit "os"); act (remove_file tmp_path); pure tt

abbrev pub resolv_conf : Str
resolv_conf = lit "/etc/resolv.conf"

unfoldable pub ping_host : Str → Str → M (Unit {0})
ping_host tmp_path host = do
  act (run (lit "rm -f " ++ resolv_conf))
  c ← act (copy_to tmp_path resolv_conf)
  assert_status c.status 0 (text (lit "File could not be copied. Output: " ++ c.output))
  r ← act (run (lit "ping -c 1 " ++ host))
  assert_status r.status 0
      (text (lit "ping " ++ (host ++ (lit " failed: output is:\n" ++ r.output))))

-- Without the name `os` the class is not set up: the temporary file is made, and nothing is written
-- to it.
pub write_resolv_unnamed :
    (names : List Str) (t : Target) (h : History)
    → mem (lit "os") names ≡ false
    → write_resolv names t h ≡ (err (name_error (lit "os")), h ++ (mkstemp ∷ []))
unfolding write_resolv
write_resolv_unnamed names t h n = ground arith

pub write_resolv_named :
    (names : List Str) (t : Target) (h : History)
    → mem (lit "os") names ≡ true
    → let path = (t h mkstemp).output in
      write_resolv names t h ≡ (ok path, h ++ (mkstemp ∷ []) ++ (write_file path resolv ∷ []))
unfolding write_resolv
write_resolv_named names t h y = ground arith

abbrev pub removed : History → History
removed h = h ++ (run (lit "rm -f " ++ resolv_conf) ∷ [])

abbrev pub copied : Str → History → History
copied tmp_path h = removed h ++ (copy_to tmp_path resolv_conf ∷ [])

-- The ping test passes exactly when the copy and the ping succeed.
pub ping_host_lem :
    (tmp_path host : Str) (t : Target) (h : History)
    → ((ping_host tmp_path host t h).0 ≡ ok tt) ↔ (
        ((t (removed h) (copy_to tmp_path resolv_conf)).status ≡ 0)
        × ((t (copied tmp_path h) (run (lit "ping -c 1 " ++ host))).status ≡ 0))
unfolding ping_host
ping_host_lem tmp_path host t h = ground arith

-- After a copy that failed the host is not pinged, though the old file is gone.
pub ping_host_stops :
    (tmp_path host : Str) (t : Target) (h : History)
    → (t (removed h) (copy_to tmp_path resolv_conf)).status ≢ 0
    → (ping_host tmp_path host t h).1 ≡ copied tmp_path h
unfolding ping_host
ping_host_stops tmp_path host t h n = ground arith
