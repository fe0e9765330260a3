-- ===== src/Text/Numbers.antt =====
-- Decimal text: `str(n)`, `"%d" % n`, and `int(s)`.
use meta_security.Prelude.{
  ℕ, zero, suc, ◌+◌, ◌-◌, ◌*◌, ◌/◌, ◌%◌, ◌<◌, ◌≡◌, refl, ap, sym, ◌∙◌, Bool, true, false, ◌&&◌, [],
  ◌∷◌, Option, none, some, ◌⊎◌, inl, inr, append-nil, Bool-cases, arith, ltb, leb, ◌==◌,
  if◌then◌else◌, All,
}
use meta_security.Text.Defs.{Str, is_space, keep_before, lstrip, rstrip, strip}
use meta_security.Text.Pieces.{Lacks}
use meta_security.Text.Words.{IsDense, rstrip-append_IsDense}

-- The digits of `n` in front of a text, with fuel; `n + 1` rounds are enough.
decimal_onto : ℕ → ℕ → Str → Str
decimal_onto zero n out = out
decimal_onto (suc fuel) n out =
    let rest = decimal_onto fuel (n / 10) ((48 + n % 10) ∷ out) in
    if n / 10 == 0 then (48 + n % 10) ∷ out else rest

-- `str(n)`
unfoldable pub decimal : ℕ → Str
unfolding decimal_onto
decimal n = decimal_onto (suc n) n []

-- A Python integer: `negsuc n` is -(n + 1).
pub data ℤ : Type 0 where
  pos : ℕ → ℤ
  negsuc : ℕ → ℤ

is_digit : ℕ → Bool
is_digit c = leb b'0' c && leb c b'9'

-- Digits behind the number that has been read. Single underscores may stand between digits: the
-- flag says whether the last character was a digit.
digits_value : ℕ → Bool → Str → Option ℕ
unfolding is_digit
digits_value n digit [] = if digit then some n else none
digits_value n digit (c ∷ s) = elim (is_digit c) [
  | true ↦ digits_value (n * 10 + (c - 48)) true s
  | false ↦ elim (c == b'_' && digit) [ true ↦ digits_value n false s | false ↦ none ]
]

abbrev minus : Option ℕ → Option ℤ
minus none = none
minus (some zero) = some (pos 0)
minus (some (suc n)) = some (negsuc n)

abbrev plus : Option ℕ → Option ℤ
plus none = none
plus (some n) = some (pos n)

signed : Str → Option ℤ
unfolding digits_value
signed [] = none
signed (c ∷ s) =
    if c == b'-'
    then minus (digits_value 0 false s)
    else if c == b'+'
    then plus (digits_value 0 false s)
    else plus (digits_value 0 false (c ∷ s))

-- `int(s)`, for a text of ASCII digits; `none` is a `ValueError`.
unfoldable pub int : Str → Option ℤ
unfolding signed strip lstrip rstrip keep_before is_space
int s = signed (strip s)

-- `a > b`
unfoldable pub gt : ℤ → ℤ → Bool
gt (pos a) (pos b) = ltb b a
gt (pos a) (negsuc b) = true
gt (negsuc a) (pos b) = false
gt (negsuc a) (negsuc b) = ltb a b

runs :
    (int (decimal 1203) ≡ some (pos 1203))
    × (int (32 ∷ 45 ∷ 49 ∷ 50 ∷ []) ≡ some (negsuc 11))
    × (int (49 ∷ 95 ∷ 95 ∷ 50 ∷ []) ≡ none)
unfolding int decimal
runs = (refl, refl, refl)

digits_value-decimal_onto :
    (fuel n : ℕ) (b : Bool) (out : Str)
    → n < fuel
    → digits_value 0 b (decimal_onto fuel n out) ≡ digits_value n true out
unfolding digits_value decimal_onto
digits_value-decimal_onto zero n b out h = elim h [ ]
digits_value-decimal_onto (suc fuel) n b out h =
    ground (arith, digits_value-decimal_onto fuel (n / 10) b ((48 + n % 10) ∷ out))

abbrev AreDigits : Str → Type 0
AreDigits = All (λ c. is_digit c ≡ true)

decimal_onto-AreDigits :
    (fuel n : ℕ) (out : Str) → AreDigits out → AreDigits (decimal_onto fuel n out)
unfolding decimal_onto is_digit
decimal_onto-AreDigits zero n out h = h
decimal_onto-AreDigits (suc fuel) n out h =
    let last : is_digit (48 + n % 10) ≡ true = ground arith in
    elim (Bool-cases (n / 10 == 0)) [
      | inl y ↦ rw y (last, h)
      | inr m ↦ rw m (decimal_onto-AreDigits fuel (n / 10) ((48 + n % 10) ∷ out) (last, h))
    ]

AreDigits-IsDense : (s : Str) → AreDigits s → IsDense s
unfolding is_digit is_space
AreDigits-IsDense [] h = tt
AreDigits-IsDense (c ∷ s) h = (ground arith, AreDigits-IsDense s h.1)

lstrip-IsDense : (s : Str) → IsDense s → lstrip s ≡ s
unfolding lstrip
lstrip-IsDense [] h = refl
lstrip-IsDense (c ∷ s) h = ground arith

rstrip-IsDense : (s : Str) → IsDense s → rstrip s ≡ s
unfolding rstrip
rstrip-IsDense s h = ap rstrip (sym (append-nil s)) ∙ (rstrip-append_IsDense s [] h ∙ append-nil s)

strip-IsDense : (s : Str) → IsDense s → strip s ≡ s
unfolding strip
strip-IsDense s h = rw (rstrip-IsDense s h) (lstrip-IsDense s h)

signed-AreDigits : (s : Str) → AreDigits s → signed s ≡ plus (digits_value 0 false s)
unfolding signed digits_value is_digit
signed-AreDigits [] h = refl
signed-AreDigits (c ∷ s) h = ground arith

-- A number is read back from its decimal text.
pub int-decimal : (n : ℕ) → int (decimal n) ≡ some (pos n)
unfolding int decimal digits_value
int-decimal n =
    let d = decimal_onto-AreDigits (suc n) n [] tt in
    rw (
      strip-IsDense (decimal_onto (suc n) n []) (AreDigits-IsDense _ d),
      signed-AreDigits (decimal_onto (suc n) n []) d,
      digits_value-decimal_onto (suc n) n false [] (omega arith),
    )

pub decimal-Lacks : (n c : ℕ) → c < 48 ⊎ 57 < c → Lacks c (decimal n)
unfolding decimal is_digit
decimal-Lacks n c h = go (decimal_onto (suc n) n []) (decimal_onto-AreDigits (suc n) n [] tt)
  where
    go : (s : Str) → AreDigits s → Lacks c s
    go [] d = tt
    go (e ∷ s) d = (ground arith, go s d.1)
