-- ===== src/Smack/Pieces.antt =====
-- How the label tests of `SmackBasicTest` find a label in a line of chsmack.
use meta_security.Prelude.{
  ℕ, ◌≤◌, length, append_assoc, ◌≡◌, refl, ap, ◌∙◌, Bool, true, false, not, ◌&&◌, ◌||◌, ◌==◌, [],
  ◌∷◌, ◌++◌, some, arith,
}
use meta_security.Text.{Str, starts_with, is_infix, is_space}
use meta_security.Text.Equality.{starts_with-append}
use meta_security.Smack.Labels.{drop_prefix, is_quoted, has_label, up_to, second_piece, drop_last}

-- `p` is not found in `pre ++ p` before its end.
unfoldable pub is_first : Str → Str → Bool
is_first p [] = true
is_first p (c ∷ pre) = not (starts_with ((c ∷ pre) ++ p) p) && is_first p pre

-- The text has no white space.
unfoldable pub is_solid : Str → Bool
is_solid [] = true
is_solid (c ∷ w) = not (is_space c) && is_solid w

drop_prefix-append : (p r : Str) → drop_prefix p (p ++ r) ≡ r
unfolding drop_prefix
drop_prefix-append [] r = refl
drop_prefix-append (d ∷ p) r = drop_prefix-append p r

is_quoted-behind : (w post : Str) → is_solid w ≡ true → is_quoted true (w ++ (b'"' ∷ post)) ≡ true
unfolding is_quoted is_solid
is_quoted-behind [] post e = refl
is_quoted-behind (c ∷ w) post e = ground (arith, is_quoted-behind w post, e)

pub is_quoted-label :
    (c : ℕ) (w post : Str)
    → is_solid (c ∷ w) ≡ true
    → is_quoted false ((c ∷ w) ++ (b'"' ∷ post)) ≡ true
unfolding is_quoted is_solid
is_quoted-label c w post e = ground (arith, is_quoted-behind w post, e)

has_label-here :
    (d : ℕ) (p r : Str) → is_quoted false r ≡ true → has_label (d ∷ p) (d ∷ p ++ r) ≡ true
unfolding has_label
has_label-here d p r q =
    ground (arith, q, drop_prefix-append (d ∷ p) r, starts_with-append (d ∷ p) r)

-- The search finds a label behind the attribute, wherever it stands.
pub has_label-append :
    (d : ℕ) (p pre r : Str)
    → is_quoted false r ≡ true
    → has_label (d ∷ p) (pre ++ (d ∷ p ++ r)) ≡ true
unfolding has_label
has_label-append d p [] r q = has_label-here d p r q
has_label-append d p (c ∷ pre) r q = ground (arith, has_label-append d p pre r q)

-- Whether a text starts with `p` is decided within as many characters as `p` has.
starts_with-long : (s p r : Str) → length p ≤ length s → starts_with (s ++ r) p ≡ starts_with s p
unfolding starts_with
starts_with-long s [] r h = refl
starts_with-long [] (d ∷ p) r h = ground (arith, h)
starts_with-long (c ∷ s) (d ∷ p) r h = ground (arith, starts_with-long s p r, h)

length-behind : (pre p : Str) → length p ≤ length (pre ++ p)
length-behind [] p = omega arith
length-behind (c ∷ pre) p = ground (arith, length-behind pre p)

second_piece-here : (d : ℕ) (p r : Str) → second_piece (d ∷ p) (d ∷ p ++ r) ≡ some (up_to (d ∷ p) r)
unfolding second_piece
second_piece-here d p r = ground (arith, drop_prefix-append (d ∷ p) r, starts_with-append (d ∷ p) r)

-- The split finds what follows the first attribute.
pub second_piece-append :
    (d : ℕ) (p pre r : Str)
    → is_first (d ∷ p) pre ≡ true
    → second_piece (d ∷ p) (pre ++ (d ∷ p ++ r)) ≡ some (up_to (d ∷ p) r)
unfolding second_piece is_first
second_piece-append d p [] r f = second_piece-here d p r
second_piece-append d p (c ∷ pre) r f = ground (
  arith,
  f,
  second_piece-append d p pre r,
  append_assoc (c ∷ pre) (d ∷ p) r,
  starts_with-long ((c ∷ pre) ++ (d ∷ p)) (d ∷ p) r (length-behind (c ∷ pre) (d ∷ p)),
)

-- Nothing is split off behind it if the attribute does not stand there again.
pub up_to-is_infix : (p s : Str) → is_infix p s ≡ false → up_to p s ≡ s
unfolding up_to is_infix
up_to-is_infix p [] n = refl
up_to-is_infix p (c ∷ s) n = ground (arith, n, up_to-is_infix p s)

-- `c in w`, for one character
unfoldable pub has_char : ℕ → Str → Bool
has_char c [] = false
has_char c (d ∷ w) = c == d || has_char c w

drop_last-cons :
    (c : ℕ) (w : Str) (d : ℕ) (x : Str)
    → drop_last (c ∷ (w ++ (d ∷ x))) ≡ c ∷ drop_last (w ++ (d ∷ x))
unfolding drop_last
drop_last-cons c [] d x = refl
drop_last-cons c (e ∷ w) d x = refl

pub drop_last-append : (w : Str) (d : ℕ) → drop_last (w ++ (d ∷ [])) ≡ w
unfolding drop_last
drop_last-append [] d = refl
drop_last-append (c ∷ w) d =
    drop_last-cons c w d [] ∙ ap (λ (x : Str). c ∷ x) (drop_last-append w d)

pub has_char-drop_last :
    (w : Str) (d c : ℕ) (x : Str) → has_char d (drop_last (w ++ (d ∷ c ∷ x))) ≡ true
unfolding drop_last has_char
has_char-drop_last [] d c x = ground arith
has_char-drop_last (e ∷ w) d c x =
    ground (arith, drop_last-cons e w d (c ∷ x), has_char-drop_last w d c x)
