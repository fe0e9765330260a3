-- ===== src/Ima/Hash.antt =====
-- `test_ima_hash`: when the hash that IMA reports is accepted.
use mathlib.Core.Option.{some-injective}
use meta_security.Prelude.{
  ℕ, zero, suc, ◌≡◌, ◌≢◌, ◌↔◌, ◌⊎◌, refl, ap, sym, ◌∙◌, List, [], ◌∷◌, ◌++◌, Option, none, some,
  arith, Result, ok, err, ◌==◌, if◌then◌else◌, inl, inr, Bool-cases, Result-cases, All,
}
use meta_security.Text.{Str, lit, str_eq, words}
use meta_security.Text.Equality.{str_eq_refl, str_eq→eq}
use meta_security.Text.Words.{IsWord, words-IsWord}
use meta_security.Oeqa.{Exception, Action, run, sleep, History, Target}
use meta_security.Ima.Defs.{
  filename, read_measurements, reported_hash, poll, maximum_tries, test_ima_hash, item,
}

-- What one reading of the measurements says: the hash of the last entry, none if `grep` found no
-- entry, or the exception of an entry of another form.
abbrev pub Reading : Type 0
Reading = Result Exception (Option Str)

abbrev some_result : Result Exception Str → Reading
some_result (ok x) = ok (some x)
some_result (err e) = err e

pub reading : Target → History → Reading
reading t h =
    let r = t h read_measurements in
    if r.status == 0 then some_result (reported_hash r.output) else ok none

abbrev pub later : History → History
later h = h ++ (read_measurements ∷ []) ++ (sleep 1 ∷ [])

-- Within so many readings one reports the hash, and those before it report another one or none.
abbrev pub Confirms : Target → Str → ℕ → History → Type 0
Confirms t hash zero h = ⊥
Confirms t hash (suc n) h =
    (reading t h ≡ ok (some hash))
    ⊎ ((r : Option Str) × (reading t h ≡ ok r) × (r ≢ some hash) × Confirms t hash n (later h))

module _ (t : Target) (hash : Str) (n : ℕ) (old : Str) (h : History) where
  pub poll_found :
      reading t h ≡ ok (some hash)
      → poll hash (suc n) old t h ≡ (ok hash, h ++ (read_measurements ∷ []))
  unfolding poll reading
  poll_found e = ground (arith, str_eq_refl hash)

  pub poll_other :
      (x : Str)
      → x ≢ hash
      → reading t h ≡ ok (some x)
      → poll hash (suc n) old t h ≡ poll hash n x t (later h)
  unfolding poll reading
  poll_other x ne e = ground (arith, str_eq→eq x hash)

  pub poll-none : reading t h ≡ ok none → poll hash (suc n) old t h ≡ poll hash n old t (later h)
  unfolding poll reading
  poll-none e = ground arith

  pub poll_raised :
      {x : Exception}
      → reading t h ≡ err x
      → poll hash (suc n) old t h ≡ (err x, h ++ (read_measurements ∷ []))
  unfolding poll reading
  poll_raised e = ground arith

abbrev value : Result Exception Str × History → Result Exception Str
value r = r.0

abbrev pub some_hash : Str → Reading
some_hash x = ok (some x)

abbrev Agrees : Target → Str → ℕ → Str → History → Type 0
Agrees t hash n old h = ((poll hash n old t h).0 ≡ ok hash) ↔ Confirms t hash n h

-- A reading of another hash, or of none, leaves the matter to the later ones; an exception ends it.
confirm_later :
    (t : Target) (hash : Str) (n : ℕ) (h : History) (r : Option Str)
    → reading t h ≡ ok r
    → r ≢ some hash
    → Confirms t hash (suc n) h
    → Confirms t hash n (later h)
confirm_later t hash n h r e ne (inl k) = absurd (ne (cc))
confirm_later t hash n h r e ne (inr (r', e', ne', c)) = c

confirm_raised :
    (t : Target) (hash : Str) (n : ℕ) (h : History) (x : Exception)
    → reading t h ≡ err x
    → ¬ Confirms t hash (suc n) h
confirm_raised t hash n h x e (inl k) = cc
confirm_raised t hash n h x e (inr (r, k, ne, c)) = cc

poll_step :
    (t : Target) (hash : Str) (n : ℕ) (old : Str) (h : History)
    → old ≢ hash
    → ((x : Str) → x ≢ hash → Agrees t hash n x (later h))
    → (r : Reading) → reading t h ≡ r
    → Agrees t hash (suc n) old h
poll_step t hash n old h ne ih (err x) e = (
  λ k. cc (ap value (poll_raised t hash n old h e)),
  λ c. absurd (confirm_raised t hash n h x e c),
)
poll_step t hash n old h ne ih (ok none) e =
    let same = ap value (poll-none t hash n old h e) in
    (
      λ k. inr (none, e, (λ q. cc), (ih old ne).0 (sym same ∙ k)),
      λ c. same ∙ (ih old ne).1 (confirm_later t hash n h none e (λ q. cc) c),
    )
poll_step t hash n old h ne ih (ok (some x)) e = elim (Bool-cases (str_eq x hash)) [
  | inl y ↦
      let e' : reading t h ≡ ok (some hash) = e ∙ ap some_hash (str_eq→eq x hash y) in
      (λ k. inl e', λ c. ap value (poll_found t hash n old h e'))
  | inr m ↦
      let other : x ≢ hash = λ q. cc (m, ap (str_eq x) q, str_eq_refl x) in
      let other' : some x ≢ some hash = λ q. other (some-injective x hash q) in
      let same = ap value (poll_other t hash n old h x other e) in
      (
        λ k. inr (some x, e, other', (ih x other).0 (sym same ∙ k)),
        λ c. same ∙ (ih x other).1 (confirm_later t hash n h (some x) e other' c),
      )
]

poll_lem :
    (t : Target) (hash : Str) (n : ℕ) (old : Str) (h : History) → old ≢ hash → Agrees t hash n old h
unfolding poll
poll_lem t hash zero old h ne = (λ e. ne (ground arith), λ c. absurd c)
poll_lem t hash (suc n) old h ne =
    poll_step t hash n old h ne (λ x. poll_lem t hash n x (later h)) (reading t h) refl

-- The actions before the loop, and whether the test accepts what the loop returns.
abbrev sha256sum : Action
sha256sum = run (lit "sha256sum " ++ filename)

abbrev pub start : History → History
start h = h ++ (sha256sum ∷ []) ++ (sleep 2 ∷ [])

-- The hash that `sha256sum` prints first.
abbrev pub current : Target → History → Result Exception Str
current t h = item (words (t h sha256sum).output) 0

test_ima_hash-poll :
    (t : Target) (h : History) {hash : Str}
    → current t h ≡ ok hash
    → ((test_ima_hash t h).0 ≡ ok tt) ↔ ((poll hash maximum_tries [] t (start h)).0 ≡ ok hash)
unfolding test_ima_hash
test_ima_hash-poll t h {hash} e = elim (Result-cases (poll hash maximum_tries [] t (start h)).0) [
  | inl (v, q) ↦ ground (arith, e, q, str_eq→eq v hash, str_eq_refl hash)
  | inr (x, q) ↦ ground (arith, e, q)
]

first-ne-nil : (ws : List Str) {hash : Str} → All IsWord ws → item ws 0 ≡ ok hash → [] ≢ hash
first-ne-nil [] w e q = cc
first-ne-nil (x ∷ ws) w e q = w.0.0 (ground arith)

-- Once `sha256sum` has printed a hash, the test passes exactly when one of the first three readings
-- reports it, and no reading before that is malformed.
pub test_ima_hash-Confirms :
    (t : Target) (h : History) (hash : Str)
    → current t h ≡ ok hash
    → ((test_ima_hash t h).0 ≡ ok tt) ↔ Confirms t hash maximum_tries (start h)
test_ima_hash-Confirms t h hash e =
    let a = test_ima_hash-poll t h e in
    let b =
      poll_lem t hash maximum_tries [] (start h)
        (first-ne-nil _ (words-IsWord (t h sha256sum).output) e) in
    (λ k. b.0 (a.0 k), λ c. a.1 (b.1 c))
