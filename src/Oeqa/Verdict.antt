-- ===== src/Oeqa/Verdict.antt =====
-- `re.search` for the patterns of the tests, what a test reports, and how its verdict is stated.
use meta_security.Prelude.{
  ℕ, ◌≡◌, ◌↔◌, ◌⊎◌, refl, ap, inl, inr, Bool, true, false, not, ◌&&◌, ◌||◌, List, [], ◌∷◌, ◌++◌,
  arith, ok, err, ◌==◌, if◌then◌else◌, Bool-cases,
}
use meta_security.Text.{Str, lit, mem}
use meta_security.Text.Numbers.{decimal}
use meta_security.Oeqa.{
  Message, text, failure, name_error, run, Reply, History, Target, M, ◌>>=◌, pure, act,
  assert_status,
}

-- A pattern of plain characters and `.`, which fits any character but a newline.
unfoldable pub match_here : Str → Str → Bool
match_here [] s = true
match_here (d ∷ p) [] = false
match_here (d ∷ p) (c ∷ s) = (if d == b'.' then not (c == 10) else c == d) && match_here p s

-- `re.search(p, s)` finds a match.
unfoldable pub search_in : Str → Str → Bool
search_in p [] = match_here p []
search_in p (c ∷ s) = match_here p (c ∷ s) || search_in p s

-- The text is one that the pattern describes.
abbrev pub Fits : Str → Str → Type 0
Fits [] [] = Unit
Fits [] (c ∷ s) = ⊥
Fits (d ∷ p) [] = ⊥
Fits (d ∷ p) (c ∷ s) = ((if d == b'.' then not (c == 10) else c == d) ≡ true) × Fits p s

abbrev pub Occurs : Str → Str → Type 0
Occurs p s = (a : Str) × (m : Str) × (b : Str) × (s ≡ a ++ (m ++ b)) × Fits p m

match_here→Fits :
    (p s : Str) → match_here p s ≡ true → (m : Str) × (b : Str) × (s ≡ m ++ b) × Fits p m
unfolding match_here
match_here→Fits [] s h = ([], s, refl, tt)
match_here→Fits (d ∷ p) [] h = cc
match_here→Fits (d ∷ p) (c ∷ s) h =
    let (m, b, e, f) = match_here→Fits p s (ground arith) in
    (c ∷ m, b, ap (λ (r : Str). c ∷ r) e, (ground arith, f))

Fits→match_here : (p m b : Str) → Fits p m → match_here p (m ++ b) ≡ true
unfolding match_here
Fits→match_here [] [] b f = refl
Fits→match_here [] (c ∷ m) b f = absurd f
Fits→match_here (d ∷ p) [] b f = absurd f
Fits→match_here (d ∷ p) (c ∷ m) b f = ground (arith, Fits→match_here p m b f.1)

search_in→Occurs : (p s : Str) → search_in p s ≡ true → Occurs p s
unfolding search_in
search_in→Occurs p [] h = let (m, b, e, f) = match_here→Fits p [] h in ([], m, b, e, f)
search_in→Occurs p (c ∷ s) h = elim (Bool-cases (match_here p (c ∷ s))) [
  | inl y ↦ let (m, b, e, f) = match_here→Fits p (c ∷ s) y in ([], m, b, e, f)
  | inr n ↦
      let (a, m, b, e, f) = search_in→Occurs p s (ground arith) in
      (c ∷ a, m, b, ap (λ (r : Str). c ∷ r) e, f)
]

search_in_here : (p s : Str) → match_here p s ≡ true → search_in p s ≡ true
unfolding search_in
search_in_here p [] h = h
search_in_here p (c ∷ s) h = ground arith

search_in-append : (p a s : Str) → search_in p s ≡ true → search_in p (a ++ s) ≡ true
unfolding search_in
search_in-append p [] s h = h
search_in-append p (c ∷ a) s h = ground (arith, search_in-append p a s h)

-- `search` finds the pattern exactly where it occurs.
pub search_in_iff : (p s : Str) → (search_in p s ≡ true) ↔ Occurs p s
search_in_iff p s = (
  search_in→Occurs p s,
  λ (a, m, b, e, f).
      rw e (search_in-append p a (m ++ b) (search_in_here p (m ++ b) (Fits→match_here p m b f))),
)

-- `'… Status and output:%s and %s' % (status, output)`
abbrev pub report : Str → Reply → Message
report head r =
    text (head ++ (lit "Status and output:" ++ (decimal r.status ++ (lit " and " ++ r.output))))

-- A use of a global name, among those that the module imports and the interpreter provides.
abbrev pub use_name : List Str → Str → M (Unit {0})
use_name names x t h = (if mem x names then ok tt else err (name_error x), h)

-- The verdict of a test of one command: it sends the command and nothing else, and passes exactly
-- when the reply is good.
abbrev pub Verdict : Target → History → M (Unit {0}) → Str → (Reply → Type 0) → Type 0
Verdict t h m c IsGood =
    ((m t h).1 ≡ h ++ (run c ∷ [])) × (((m t h).0 ≡ ok tt) ↔ IsGood (t h (run c)))

abbrev pub HasStatus : ℕ → Reply → Type 0
HasStatus n r = r.status ≡ n

-- The status is as expected, or the output holds the pattern.
abbrev pub HasStatusOr : ℕ → Str → Reply → Type 0
HasStatusOr n p r = (r.status ≡ n) ⊎ Occurs p r.output

-- The two forms of these tests: of the status alone, and with a pattern that excuses any status.
unfoldable pub expect_status : Str → ℕ → (Reply → Message) → M (Unit {0})
expect_status c n msg = do r ← act (run c); assert_status r.status n (msg r)

unfoldable pub expect_match : Str → Str → ℕ → (Reply → Message) → M (Unit {0})
expect_match c p n msg = do
  r ← act (run c)
  if search_in p r.output then pure tt else assert_status r.status n (msg r)

pub expect_status-Verdict :
    (t : Target) (h : History) (c : Str) (n : ℕ) (msg : Reply → Message)
    → Verdict t h (expect_status c n msg) c (HasStatus n)
unfolding expect_status
expect_status-Verdict t h c n msg = (refl, ground arith)

pub expect_match-Verdict :
    (t : Target) (h : History) (c p : Str) (n : ℕ) (msg : Reply → Message)
    → Verdict t h (expect_match c p n msg) c (HasStatusOr n p)
unfolding expect_match
expect_match-Verdict t h c p n msg =
    let r = t h (run c) in
    elim (Bool-cases (search_in p r.output)) [
      | inl y ↦ rw y (refl, (λ _. inr ((search_in_iff p r.output).0 y), λ _. refl))
      | inr m ↦ rw m (refl, (λ k. inl (ground arith), status_or_absent r m))
    ]
  where
    status_or_absent :
        (r : Reply)
        → search_in p r.output ≡ false
        → HasStatusOr n p r
        → (if r.status == n then ok tt else err (failure (msg r))) ≡ ok tt
    status_or_absent r m (inl s) = ground arith
    status_or_absent r m (inr o) = cc (m, (search_in_iff p r.output).1 o)

-- The form of the tests in which the pattern is the sign of a failure.
unfoldable pub expect_no_match : Str → Str → ℕ → (Reply → Message) → M (Unit {0})
expect_no_match c p n msg = do
  r ← act (run c)
  if search_in p r.output then assert_status r.status n (msg r) else pure tt

abbrev pub HasStatusOrLacks : ℕ → Str → Reply → Type 0
HasStatusOrLacks n p r = (r.status ≡ n) ⊎ (¬ Occurs p r.output)

pub expect_no_match-Verdict :
    (t : Target) (h : History) (c p : Str) (n : ℕ) (msg : Reply → Message)
    → Verdict t h (expect_no_match c p n msg) c (HasStatusOrLacks n p)
unfolding expect_no_match
expect_no_match-Verdict t h c p n msg =
    let r = t h (run c) in
    elim (Bool-cases (search_in p r.output)) [
      | inl y ↦ rw y (refl, (λ k. inl (ground arith), λ g. status_or_present r y g))
      | inr m ↦ rw m (refl, (λ _. inr (λ o. cc (m, (search_in_iff p r.output).1 o)), λ _. refl))
    ]
  where
    status_or_present :
        (r : Reply)
        → search_in p r.output ≡ true
        → HasStatusOrLacks n p r
        → (if r.status == n then ok tt else err (failure (msg r))) ≡ ok tt
    status_or_present r y (inl s) = ground arith
    status_or_present r y (inr o) = absurd (o ((search_in_iff p r.output).0 y))
