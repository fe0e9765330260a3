-- ===== src/Ima/Defs.antt =====
-- The methods of `IMACheck`.
use meta_security.Prelude.{
  ℕ, zero, suc, ◌+◌, not, List, [], ◌∷◌, ◌++◌, Option, none, some, Result, ok, err, ◌==◌, length,
  get_elem?, if◌then◌else◌,
}
use meta_security.Text.{Str, lit, str_eq, mem, words, split_on}
use meta_security.Text.Numbers.{ℤ, int, gt, decimal}
use meta_security.Oeqa.{
  Message, text, Exception, index_error, value_error, Action, run, sleep, Reply, M, ◌>>=◌, ◌>>◌,
  pure, from_result, act, assert_status, fail,
}

unfoldable pub blacklist : List Str
blacklist = lit "/usr/bin/uz" ∷ lit "/bin/su.shadow" ∷ []

-- The attributes that `setUpClass` sets.
pub record ImaClass : Type 0 where
  pub binaries : List Str
  pub total : ℕ

-- The loop over the locations, with the binaries that have been found.
unfoldable pub find_binaries : List Str → List Str → M (List Str)
find_binaries [] found = pure found
find_binaries (l ∷ ls) found = do
  r ← act (run (lit "find " ++ (l ++ lit " -type f")))
  find_binaries ls (found ++ split_on 10 r.output)

unfoldable pub set_up_class : M ImaClass
set_up_class = do
  binaries ← find_binaries (lit "/bin" ∷ lit "/usr/bin" ∷ []) []
  pure (record { binaries = binaries; total = length binaries })

-- `dmesg | grep -n '%s'`
abbrev pub dmesg : Str → Action
dmesg pattern = run (lit "dmesg | grep -n '" ++ (pattern ++ lit "'"))

abbrev pub ima_search : Str
ima_search = lit "ima: "

abbrev pub systemd_search : Str
systemd_search = lit "systemd .* running"

abbrev pub not_found : Str → Message
not_found pattern = text (lit "Did not find '" ++ (pattern ++ lit "' in dmesg"))

unfoldable pub test_ima_enabled : M (Unit {0})
test_ima_enabled = do r ← act (dmesg ima_search); assert_status r.status 0 (not_found ima_search)

abbrev pub first_of_split : List Str → Str
first_of_split [] = []
first_of_split (w ∷ ws) = w

abbrev pub or_raise : {A : Type 0} → Option A → Exception → Result Exception A
or_raise none e = err e
or_raise (some a) e = ok a

-- `int(output.split(":")[0])`: a `split` with a separator has a first piece always.
unfoldable pub line_number : Str → Result Exception ℤ
line_number output = or_raise (int (first_of_split (split_on b':' output))) value_error

unfoldable pub test_ima_before_systemd : M (Unit {0})
test_ima_before_systemd = do
  r ← act (dmesg ima_search)
  assert_status r.status 0 (not_found ima_search)
  ima_id ← from_result (line_number r.output)
  s ← act (dmesg systemd_search)
  assert_status s.status 0 (not_found systemd_search)
  init_id ← from_result (line_number s.output)
  if gt ima_id init_id then fail (text (lit "IMA does not start before systemd")) else pure tt

abbrev pub filename : Str
filename = lit "/etc/ld.so.cache"

abbrev pub last_of_split : List Str → Str
last_of_split [] = []
last_of_split (w ∷ []) = w
last_of_split (w ∷ v ∷ ws) = last_of_split (v ∷ ws)

-- `words[i]`, and `IndexError` behind the end
abbrev pub item : List Str → ℕ → Result Exception Str
item ws i = or_raise (get_elem? ws i) index_error

abbrev pub bind :
    {A B : Type 0} → Result Exception A → (A → Result Exception B) → Result Exception B
bind (ok a) f = f a
bind (err e) f = err e

-- The hash of the last entry: `output.split("\n")[-1].split()[3]`, and `tokens.split(":")[1]`.
unfoldable pub reported_hash : Str → Result Exception Str
reported_hash output =
    bind (item (words (last_of_split (split_on 10 output))) 3)
      (λ tokens. item (split_on b':' tokens) 1)

abbrev pub read_measurements : Action
read_measurements = run (
    lit "cat /sys/kernel/security/ima/ascii_runtime_measurements | grep -e '"
    ++ (filename ++ lit "'"))

-- `maximum_tries - tries` rounds of the loop, and `ima_hash`; a `break` ends it.
unfoldable pub poll : Str → ℕ → Str → M Str
poll current_hash zero ima_hash = pure ima_hash
poll current_hash (suc tries) ima_hash = do
  r ← act read_measurements
  if r.status == 0
      then (do
        found ← from_result (reported_hash r.output)
        if str_eq found current_hash
            then pure found
            else (act (sleep 1) >> poll current_hash tries found))
      else (act (sleep 1) >> poll current_hash tries ima_hash)

abbrev pub maximum_tries : ℕ
maximum_tries = 3

unfoldable pub test_ima_hash : M (Unit {0})
test_ima_hash = do
  r ← act (run (lit "sha256sum " ++ filename))
  act (sleep 2)
  current_hash ← from_result (item (words r.output) 0)
  ima_hash ← poll current_hash maximum_tries []
  act (run (lit "rm " ++ filename))
  if not (str_eq ima_hash current_hash)
      then fail (text (lit "Hash stored by IMA does not match actual hash"))
      else pure tt

-- What the two loops over the binaries do for one binary, up to its verification.
abbrev pub verify : Str → M Reply
verify b = act (run (lit "evmctl ima_verify " ++ b))

abbrev pub overwrite : Str → M Reply
overwrite b = act (run (lit "echo 'foo' >> " ++ b)) >> verify b

-- The loop over the binaries: the numbers that passed and failed.
unfoldable pub count_verified : (Str → M Reply) → List Str → ℕ → ℕ → M (ℕ × ℕ)
count_verified check [] passed failed = pure (passed, failed)
count_verified check (b ∷ bs) passed failed =
    if mem b blacklist then count_verified check bs passed failed else do
      r ← check b
      if not (r.status == 0)
          then count_verified check bs passed (failed + 1)
          else count_verified check bs (passed + 1) failed

unfoldable pub test_ima_signature : ImaClass → M (Unit {0})
test_ima_signature c = do
  counts ← count_verified verify c.binaries 0 0
  if counts.1 == c.total
      then fail (text (lit "Signature verifications failed (" ++ (decimal c.total ++ lit ")")))
      else pure tt

unfoldable pub test_ima_overwrite : ImaClass → M (Unit {0})
test_ima_overwrite c = do
  counts ← count_verified overwrite c.binaries 0 0
  if counts.1 == c.total
      then fail (text (lit "Overwritting verifications failed (" ++ (decimal c.total ++ lit ")")))
      else pure tt
