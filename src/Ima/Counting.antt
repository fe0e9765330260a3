-- ===== src/Ima/Counting.antt =====
-- `test_ima_signature` and `test_ima_overwrite`: when a loop over the binaries fails the test.
use native.Mathlib.Decide.{ℕ_discrete}
use meta_security.Prelude.{
  ℕ, ◌+◌, ◌≤◌, ◌<◌, ◌≡◌, ◌≢◌, ◌↔◌, ◌⊎◌, refl, ap, subst, ◌∙◌, true, false, List, [], ◌∷◌, ◌++◌,
  arith, Result, ok, err, length, Bool-cases, inl, inr, length-append,
}
use meta_security.Text.{Str, lit, str_eq, mem, split_on}
use meta_security.Text.Equality.{str_eq→eq}
use meta_security.Text.Pieces.{split_on-cases}
use meta_security.Oeqa.{Exception, Action, run, Reply, History, Target, M}
use meta_security.Ima.Defs.{
  blacklist, ImaClass, find_binaries, set_up_class, verify, overwrite, count_verified,
  test_ima_signature, test_ima_overwrite,
}

-- The checks of the two tests, by what they send to the target before the verification.
pub data Check : Type 0 where
  verified overwritten : Check

abbrev pub method : Check → Str → M Reply
method verified = verify
method overwritten = overwrite

abbrev pub verify_action : Str → Action
verify_action b = run (lit "evmctl ima_verify " ++ b)

abbrev pub overwrite_action : Str → Action
overwrite_action b = run (lit "echo 'foo' >> " ++ b)

-- The actions before the verification, and behind it.
abbrev pub before : Check → Str → History → History
before verified b h = h
before overwritten b h = h ++ (overwrite_action b ∷ [])

abbrev pub behind : Check → Str → History → History
behind k b h = before k b h ++ (verify_action b ∷ [])

-- No binary is on the blacklist, and every verification fails, in the order of the loop.
abbrev pub AllRejected : Target → Check → List Str → History → Type 0
AllRejected t k [] h = Unit
AllRejected t k (b ∷ bs) h =
    (mem b blacklist ≡ false)
    × ((t (before k b h) (verify_action b)).status ≢ 0)
    × AllRejected t k bs (behind k b h)

method-eq :
    (k : Check) (b : Str) (t : Target) (h : History)
    → method k b t h ≡ (ok (t (before k b h) (verify_action b)), behind k b h)
method-eq verified b t h = refl
method-eq overwritten b t h = refl

module _ (t : Target) (b : Str) (bs : List Str) (p f : ℕ) (h : History) where
  pub count_skipped :
      (k : Check)
      → mem b blacklist ≡ true
      → count_verified (method k) (b ∷ bs) p f t h ≡ count_verified (method k) bs p f t h
  unfolding count_verified
  count_skipped k y = rw (y, count_verified)

  pub count_failed :
      (k : Check)
      → mem b blacklist ≡ false
      → (t (before k b h) (verify_action b)).status ≢ 0
      → count_verified (method k) (b ∷ bs) p f t h
        ≡ count_verified (method k) bs p (f + 1) t (behind k b h)
  unfolding count_verified
  count_failed verified n s = ground arith
  count_failed overwritten n s = ground arith

  pub count_passed :
      (k : Check)
      → mem b blacklist ≡ false
      → (t (before k b h) (verify_action b)).status ≡ 0
      → count_verified (method k) (b ∷ bs) p f t h
        ≡ count_verified (method k) bs (p + 1) f t (behind k b h)
  unfolding count_verified
  count_passed verified n s = ground arith
  count_passed overwritten n s = ground arith

-- What the loop returns: it never raises, and it counts a failure for each binary exactly when all
-- are rejected.
abbrev Counts : Target → Check → List Str → ℕ → ℕ → History → Type 0
Counts t k bs p f h =
    (passed : ℕ) × (failed : ℕ) × (end : History) × (count_verified (method k) bs p f t h
      ≡ (ok (passed, failed), end))
    × (failed ≤ f + length bs)
    × (failed ≡ f + length bs → AllRejected t k bs h)
    × (AllRejected t k bs h → failed ≡ f + length bs)

count_verified_lem :
    (t : Target) (k : Check) (bs : List Str) (p f : ℕ) (h : History) → Counts t k bs p f h
unfolding count_verified
count_verified_lem t k [] p f h = (p, f, h, refl, omega arith, λ _. tt, λ _. omega arith)
count_verified_lem t k (b ∷ bs) p f h = elim (Bool-cases (mem b blacklist)) [
  | inl y ↦
      let (p', f', e, loop, bound, _, _) = count_verified_lem t k bs p f h in
      (
        p',
        f',
        e,
        count_skipped t b bs p f h k y ∙ loop,
        omega arith,
        λ full. absurd (omega arith),
        λ a. cc (y, a.0),
      )
  | inr n ↦ elim (ℕ_discrete (t (before k b h) (verify_action b)).status 0) [
    | yes s ↦
        let (p', f', e, loop, bound, _, _) = count_verified_lem t k bs (p + 1) f (behind k b h) in
        (
          p',
          f',
          e,
          count_passed t b bs p f h k n s ∙ loop,
          omega arith,
          λ full. absurd (omega arith),
          λ a. absurd (a.1 s),
        )
    | no s ↦
        let (p', f', e, loop, bound, all, count) =
          count_verified_lem t k bs p (f + 1) (behind k b h) in
        (
          p',
          f',
          e,
          count_failed t b bs p f h k n s ∙ loop,
          omega arith,
          λ c. (n, s, all (omega arith)),
          λ a. omega (arith, count a.2),
        )
  ]
]

-- The tests, by their checks.
abbrev pub test_of : Check → ImaClass → M (Unit {0})
test_of verified = test_ima_signature
test_of overwritten = test_ima_overwrite

test_of-fails :
    (t : Target) (k : Check) (c : ImaClass) (h : History) {p f : ℕ} {end : History}
    → count_verified (method k) c.binaries 0 0 t h ≡ (ok (p, f), end)
    → ((test_of k c t h).0 ≢ ok tt) ↔ (f ≡ c.total)
unfolding test_ima_signature test_ima_overwrite
test_of-fails t verified c h e = ground (arith, e)
test_of-fails t overwritten c h e = ground (arith, e)

-- The class is set up with the number of its binaries, and with one binary at least.
length-split_on : (sep : ℕ) (s : Str) → 0 < length (split_on sep s)
length-split_on sep s = let (w, ws, e) = split_on-cases sep s in rw e (omega arith)

abbrev IsSetUp : Result Exception ImaClass → Type 0
IsSetUp (ok c) = (c.total ≡ length c.binaries) × (0 < c.total)
IsSetUp (err e) = Unit

set_up_class-total :
    (t : Target) (h : History) (c : ImaClass)
    → (set_up_class t h).0 ≡ ok c
    → (c.total ≡ length c.binaries) × (0 < c.total)
unfolding set_up_class find_binaries
set_up_class-total t h c e =
    subst IsSetUp e
      (refl, omega (arith, length-append {0} (split_on 10 _) (split_on 10 _), length-split_on 10 _))

-- With the class as `setUpClass` leaves it, either of the two tests fails exactly when no binary
-- is on the blacklist and the verification of every binary fails.
pub test_of-AllRejected :
    (t : Target) (k : Check) (c : ImaClass) (h₀ h : History)
    → (set_up_class t h₀).0 ≡ ok c
    → ((test_of k c t h).0 ≢ ok tt) ↔ AllRejected t k c.binaries h
test_of-AllRejected t k c h₀ h e =
    let (p, f, end, loop, bound, all, count) = count_verified_lem t k c.binaries 0 0 h in
    let iff = test_of-fails t k c h loop in
    let total = set_up_class-total t h₀ c e in
    (λ x. all (omega (arith, iff.0 x, total.0)), λ a. iff.1 (omega (arith, count a, total.0)))

Unit-cases : (r : Result Exception (Unit {0})) → (r ≡ ok tt) ⊎ (r ≢ ok tt)
Unit-cases (ok a) = inl refl
Unit-cases (err e) = inr (λ h. cc)

AllRejected-mem :
    (t : Target) (k : Check) (bs : List Str) (h : History) (b : Str)
    → mem b blacklist ≡ true
    → mem b bs ≡ true
    → ¬ AllRejected t k bs h
unfolding mem
AllRejected-mem t k [] h b y m a = cc
AllRejected-mem t k (x ∷ bs) h b y m a = elim (Bool-cases (str_eq b x)) [
  | inl e ↦ cc (a.0, y, ap (λ (s : Str). mem s blacklist) (str_eq→eq b x e))
  | inr n ↦ AllRejected-mem t k bs (behind k x h) b y (ground arith) a.2
]

-- With the class as `setUpClass` leaves it, and one of its binaries on the blacklist, both tests
-- pass, whatever the target answers.
pub test_of_blacklisted :
    (t : Target) (k : Check) (c : ImaClass) (h₀ h : History) (b : Str)
    → (set_up_class t h₀).0 ≡ ok c
    → mem b blacklist ≡ true
    → mem b c.binaries ≡ true
    → (test_of k c t h).0 ≡ ok tt
test_of_blacklisted t k c h₀ h b e y m = elim (Unit-cases (test_of k c t h).0) [
  | inl done ↦ done
  | inr n ↦ absurd (AllRejected-mem t k c.binaries h b y m ((test_of-AllRejected t k c h₀ h e).0 n))
]
