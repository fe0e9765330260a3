-- ===== src/Ima/Sends.antt =====
-- What the tests of `IMACheck` send to the target: the loops over the binaries, and `test_ima_hash`.
use native.Mathlib.Decide.{ℕ_discrete}
use meta_security.Prelude.{
  ℕ, zero, suc, ◌+◌, ◌*◌, ◌≤◌, ◌≡◌, refl, ap, sym, ◌∙◌, List, [], ◌∷◌, ◌++◌, append_assoc,
  append-nil, arith, Result, none, some, ok, err, length, length-append, Bool-cases, Result-cases,
  inl, inr, if◌then◌else◌,
}
use meta_security.Text.{Str, lit, mem, str_eq}
use meta_security.Text.Equality.{str_eq_refl, str_eq→eq}
use meta_security.Oeqa.{run, sleep, Action, Exception, History, Target}
use meta_security.Ima.Defs.{
  read_measurements, filename, blacklist, ImaClass, count_verified, test_ima_signature,
  test_ima_overwrite, poll, test_ima_hash, maximum_tries,
}
use meta_security.Ima.Counting.{
  Check, verified, overwritten, method, behind, verify_action, overwrite_action, before, test_of,
  count_skipped, count_failed, count_passed,
}
use meta_security.Ima.Hash.{
  Reading, some_hash, start, current, reading, later, poll_found, poll_other, poll-none,
  poll_raised,
}

-- What a loop sends for one binary.
abbrev pub visit : Check → Str → List Action
visit verified b = verify_action b ∷ []
visit overwritten b = overwrite_action b ∷ verify_action b ∷ []

-- What a loop sends for all: nothing for a binary on the blacklist.
unfoldable pub visits : Check → List Str → List Action
visits k [] = []
visits k (b ∷ bs) = let rest = visits k bs in if mem b blacklist then rest else visit k b ++ rest

-- How many binaries are not on the blacklist.
unfoldable pub unlisted : List Str → ℕ
unlisted [] = 0
unlisted (b ∷ bs) = let rest = unlisted bs in if mem b blacklist then rest else suc rest

behind-visit :
    (k : Check) (b : Str) (h : History) (s : List Action)
    → behind k b h ++ s ≡ h ++ (visit k b ++ s)
behind-visit verified b h s = append_assoc h (verify_action b ∷ []) s
behind-visit overwritten b h s =
    append_assoc (h ++ (overwrite_action b ∷ [])) (verify_action b ∷ []) s
    ∙ append_assoc h (overwrite_action b ∷ []) (verify_action b ∷ s)

abbrev Sent : Target → Check → List Str → ℕ → ℕ → History → Type 0
Sent t k bs p f h =
    (passed : ℕ) × (failed : ℕ) × (count_verified (method k) bs p f t h
      ≡ (ok (passed, failed), h ++ visits k bs))
    × (passed + failed ≡ p + f + unlisted bs)

abbrev ended : ℕ → ℕ → History → Result Exception (ℕ × ℕ) × History
ended p f h = (ok (p, f), h)

-- The loop never raises, counts every binary that is not on the blacklist, and sends no more and no
-- less than its visits.
count_verified_sends :
    (t : Target) (k : Check) (bs : List Str) (p f : ℕ) (h : History) → Sent t k bs p f h
unfolding count_verified visits unlisted
count_verified_sends t k [] p f h = (p, f, ap (ended p f) (sym (append-nil h)), omega arith)
count_verified_sends t k (b ∷ bs) p f h = elim (Bool-cases (mem b blacklist)) [
  | inl y ↦
      let (p', f', loop, sum) = count_verified_sends t k bs p f h in
      (p', f', count_skipped t b bs p f h k y ∙ rw y loop, rw y sum)
  | inr n ↦ elim (ℕ_discrete (t (before k b h) (verify_action b)).status 0) [
    | yes s ↦
        let (p', f', loop, sum) = count_verified_sends t k bs (p + 1) f (behind k b h) in
        let sent = ap (ended p' f') (behind-visit k b h (visits k bs)) in
        (p', f', count_passed t b bs p f h k n s ∙ loop ∙ rw n sent, rw n (omega arith))
    | no s ↦
        let (p', f', loop, sum) = count_verified_sends t k bs p (f + 1) (behind k b h) in
        let sent = ap (ended p' f') (behind-visit k b h (visits k bs)) in
        (p', f', count_failed t b bs p f h k n s ∙ loop ∙ rw n sent, rw n (omega arith))
  ]
]

test_of-end :
    (t : Target) (k : Check) (c : ImaClass) (h : History) {p f : ℕ} {end : History}
    → count_verified (method k) c.binaries 0 0 t h ≡ (ok (p, f), end)
    → (test_of k c t h).1 ≡ end
unfolding test_ima_signature test_ima_overwrite
test_of-end t verified c h e = ground (arith, e)
test_of-end t overwritten c h e = ground (arith, e)

-- Whatever the target answers, either test sends this and nothing else: for each binary in turn that
-- is not on the blacklist its verification, in `test_ima_overwrite` behind its overwriting.
pub test_of_sends :
    (t : Target) (k : Check) (c : ImaClass) (h : History)
    → (test_of k c t h).1 ≡ h ++ visits k c.binaries
test_of_sends t k c h =
    let (p, f, loop, sum) = count_verified_sends t k c.binaries 0 0 h in test_of-end t k c h loop

-- How many actions the loop over the readings adds: two for each of its rounds at most.
abbrev IsWithin : ℕ → History → Result Exception Str × History → Type 0
IsWithin n h r = (length h ≤ length r.1) × (length r.1 ≤ length h + 2 * n)

length-later : (h : History) → length (later h) ≡ length h + 2
length-later h = omega (
  arith,
  length-append (h ++ (read_measurements ∷ [])) (sleep 1 ∷ []),
  length-append h (read_measurements ∷ []),
)

IsWithin-now :
    (n : ℕ) (h : History) (r : Result Exception Str)
    → IsWithin (suc n) h (r, h ++ (read_measurements ∷ []))
IsWithin-now n h r = (
  omega (arith, length-append h (read_measurements ∷ [])),
  omega (arith, length-append h (read_measurements ∷ [])),
)

IsWithin-later :
    (n : ℕ) (h : History) (r : Result Exception Str × History)
    → IsWithin n (later h) r
    → IsWithin (suc n) h r
IsWithin-later n h r w = (omega (arith, length-later h, w.0), omega (arith, length-later h, w.1))

round_bounded :
    (t : Target) (hash : Str) (n : ℕ) (old : Str) (h : History)
    → ((x : Str) → IsWithin n (later h) (poll hash n x t (later h)))
    → (r : Reading) → reading t h ≡ r
    → IsWithin (suc n) h (poll hash (suc n) old t h)
round_bounded t hash n old h ih (err x) e =
    rw (poll_raised t hash n old h e) (IsWithin-now n h (err x))
round_bounded t hash n old h ih (ok none) e =
    rw (poll-none t hash n old h e) (IsWithin-later n h (poll hash n old t (later h)) (ih old))
round_bounded t hash n old h ih (ok (some x)) e = elim (Bool-cases (str_eq x hash)) [
  | inl y ↦
      rw (poll_found t hash n old h (e ∙ ap some_hash (str_eq→eq x hash y)))
        (IsWithin-now n h (ok hash))
  | inr m ↦
      rw (poll_other t hash n old h x (λ q. cc (m, ap (str_eq x) q, str_eq_refl x)) e)
        (IsWithin-later n h (poll hash n x t (later h)) (ih x))
]

poll-IsWithin :
    (t : Target) (hash : Str) (n : ℕ) (old : Str) (h : History) → IsWithin n h (poll hash n old t h)
unfolding poll
poll-IsWithin t hash zero old h = (omega arith, omega arith)
poll-IsWithin t hash (suc n) old h =
    round_bounded t hash n old h (λ x. poll-IsWithin t hash n x (later h)) (reading t h) refl

length-start : (h : History) → length (start h) ≡ length h + 2
length-start h = omega (
  arith,
  length-append (h ++ (run (lit "sha256sum " ++ filename) ∷ [])) (sleep 2 ∷ []),
  length-append h (run (lit "sha256sum " ++ filename) ∷ []),
)

module _ (t : Target) (h : History) where
  -- The three ways through the test: to its end, out of the loop and before it.
  test_ima_hash-removed :
      {hash v : Str}
      → current t h ≡ ok hash
      → (poll hash maximum_tries [] t (start h)).0 ≡ ok v
      → (test_ima_hash t h).1
        ≡ (poll hash maximum_tries [] t (start h)).1 ++ (run (lit "rm " ++ filename) ∷ [])
  unfolding test_ima_hash
  test_ima_hash-removed {hash} {v} e q = elim (Bool-cases (str_eq v hash)) [
    | inl y ↦ ground (arith, e, q, y)
    | inr n ↦ ground (arith, e, q, n)
  ]

  test_ima_hash-raised :
      {hash : Str} {x : Exception}
      → current t h ≡ ok hash
      → (poll hash maximum_tries [] t (start h)).0 ≡ err x
      → (test_ima_hash t h).1 ≡ (poll hash maximum_tries [] t (start h)).1
  unfolding test_ima_hash
  test_ima_hash-raised e q = ground (arith, e, q)

  test_ima_hash_unhashed : {x : Exception} → current t h ≡ err x → (test_ima_hash t h).1 ≡ start h
  unfolding test_ima_hash
  test_ima_hash_unhashed e = ground (arith, e)

-- The number of actions behind the history, from two to nine.
abbrev IsShort : History → History → Type 0
IsShort h r = (length h + 2 ≤ length r) × (length r ≤ length h + 9)

hash-IsShort :
    (t : Target) (h : History) (hash : Str)
    → current t h ≡ ok hash
    → (r : Result Exception Str) → (poll hash maximum_tries [] t (start h)).0 ≡ r
    → IsShort h (test_ima_hash t h).1
hash-IsShort t h hash e (ok v) q =
    let w = poll-IsWithin t hash maximum_tries [] (start h) in
    let done =
      length-append (poll hash maximum_tries [] t (start h)).1 (run (lit "rm " ++ filename) ∷ []) in
    rw (test_ima_hash-removed t h e q)
      (omega (arith, w.0, w.1, done, length-start h), omega (arith, w.0, w.1, done, length-start h))
hash-IsShort t h hash e (err x) q =
    let w = poll-IsWithin t hash maximum_tries [] (start h) in
    rw (test_ima_hash-raised t h e q)
      (omega (arith, w.0, w.1, length-start h), omega (arith, w.0, w.1, length-start h))

-- Whatever the target answers, `test_ima_hash` ends after two to nine actions: two before the loop,
-- two in each of three rounds at most, and the removal of the file.
pub test_ima_hash_bounded :
    (t : Target) (h : History)
    → (length h + 2 ≤ length (test_ima_hash t h).1) × (length (test_ima_hash t h).1 ≤ length h + 9)
test_ima_hash_bounded t h = elim (Result-cases (current t h)) [
  | inl (hash, e) ↦ hash-IsShort t h hash e (poll hash maximum_tries [] t (start h)).0 refl
  | inr (x, e) ↦
      rw (test_ima_hash_unhashed t h e)
        (omega (arith, length-start h), omega (arith, length-start h))
]
