-- ===== src/Questions/Distros.antt =====
-- The distributions that one question requires, read by its label and its own REQUIRE_DISTRO line, and
-- what `add_requires` does to them.
use meta_security.Prelude.{
  ◌≡◌, refl, ap, sym, ◌∙◌, Bool, true, false, ◌&&◌, List, [], ◌∷◌, Option, none, some, arith,
  Result, ok, err, Gen, if◌then◌else◌,
}
use meta_security.Text.{Str, str_eq, strip, words, split_on}
use meta_security.Questions.Lines.{
  Error, unpack, check_contains, is_label, is_require, names_label, amend, add_to_require,
  add_requires,
}
use meta_security.Questions.Amend.{IsName, is_require-amend, is_require-is_label}
use meta_security.Questions.Loops.{add_to_require_ind, add_requires_ind}
use meta_security.Questions.View.{value_of, has_value, add_distro, amend-value_of, mem-value_of}

-- The distributions of the first REQUIRE_DISTRO line, if it stands in front of the next label.
unfoldable pub own_distros : List Str → Option (List Str)
own_distros [] = none
own_distros (l ∷ ls) =
    let rest = own_distros ls in
    if is_label l then none else if is_require l then some (words (value_of l)) else rest

-- The label of this question, by what stands behind its colon.
unfoldable pub is_label_of : Str → Str → Bool
is_label_of i l = is_label l && str_eq (strip (value_of l)) i

-- The distributions of the first question of this name: none if there is no such question, or it has
-- no line of its own.
unfoldable pub distros_of : Str → List Str → Option (List Str)
unfolding own_distros is_label_of
distros_of i [] = none
distros_of i (l ∷ ls) =
    let own = own_distros ls in let rest = distros_of i ls in if is_label_of i l then own else rest

-- The same distributions, and this one.
abbrev pub with_distro : Str → Option (List Str) → Option (List Str)
with_distro d none = none
with_distro d (some ds) = some (add_distro d ds)

check_contains-has_value : (d l : Str) {b : Bool} → check_contains l d ≡ ok b → has_value l ≡ true
unfolding check_contains has_value
check_contains-has_value d l {b} c = go (unpack (split_on b':' l)) refl
  where
    go : (r : Result Str (Str × Str)) → unpack (split_on b':' l) ≡ r → has_value l ≡ true
    go (ok (x, y)) e = ground (arith, e)
    go (err x) e = ground (arith, e, c)

-- What a line that is listed already, and one that is amended, hold of the distribution.
listed-add_distro :
    (d l : Str)
    → check_contains l d ≡ ok true
    → words (value_of l) ≡ add_distro d (words (value_of l))
unfolding add_distro
listed-add_distro d l c = ground (arith, mem-value_of d l (check_contains-has_value d l c) c)

pub amend-add_distro :
    (d l : Str)
    → IsName d
    → check_contains l d ≡ ok false
    → words (value_of (amend d l)) ≡ add_distro d (words (value_of l))
unfolding add_distro
amend-add_distro d l name c =
    ground
      (arith, mem-value_of d l (check_contains-has_value d l c) c, (amend-value_of d l name c).1)

abbrev AddsOwn : Str → List Str → Gen Error Str → Type 0
AddsOwn d ls g = g.stop ≡ none → own_distros g.items ≡ with_distro d (own_distros ls)

pub own_require :
    (l : Str) (ls : List Str)
    → is_require l ≡ true
    → own_distros (l ∷ ls) ≡ some (words (value_of l))
unfolding own_distros
own_require l ls y = ground (arith, is_require-is_label l y)

own_other :
    (d l : Str) (ls ms : List Str)
    → is_require l ≡ false
    → own_distros ms ≡ with_distro d (own_distros ls)
    → own_distros (l ∷ ms) ≡ with_distro d (own_distros (l ∷ ls))
unfolding own_distros
own_other d l ls ms n h = ground (arith, n, h)

add_to_require-own : (d : Str) → IsName d → (ls : List Str) → AddsOwn d ls (add_to_require d ls)
unfolding own_distros
add_to_require-own d name =
    add_to_require_ind d (AddsOwn d) (λ _. refl)
      (λ l ls g n ih h. own_other d l ls g.items n (ih h))
      (λ l ls y c h.
        own_require l ls y
        ∙ ap some (listed-add_distro d l c)
        ∙ sym (ap (with_distro d) (own_require l ls y)))
      (λ l ls y c h.
        own_require (amend d l) ls (is_require-amend d l y)
        ∙ ap some (amend-add_distro d l name c)
        ∙ sym (ap (with_distro d) (own_require l ls y)))
      (λ l ls e y c h. cc)

names_label-is_label_of : (i l : Str) {b : Bool} → names_label i l ≡ ok b → is_label_of i l ≡ b
unfolding names_label is_label_of value_of
names_label-is_label_of i l {b} c = go (unpack (split_on b':' l)) refl
  where
    go : (r : Result Str (Str × Str)) → unpack (split_on b':' l) ≡ r → is_label_of i l ≡ b
    go (ok (x, y)) e = ground (arith, e, c)
    go (err x) e = ground (arith, e, c)

-- For a distribution that is a word without a colon: when `add_requires` ends, the first question of
-- the name, if it has a REQUIRE_DISTRO line of its own, requires the distributions that it required
-- before, and this one; a question without such a line has none afterwards either.
pub add_requires-distros_of :
    (i d : Str)
    → IsName d
    → (ls : List Str) → (add_requires i d ls).stop ≡ none
    → distros_of i (add_requires i d ls).items ≡ with_distro d (distros_of i ls)
unfolding distros_of
add_requires-distros_of i d name =
    add_requires_ind i d
      (λ ls g. g.stop ≡ none → distros_of i g.items ≡ with_distro d (distros_of i ls)) (λ _. refl)
      (λ l ls n h. ground (arith, names_label-is_label_of i l n, add_to_require-own d name ls h))
      (λ l ls g n ih h. ground (arith, names_label-is_label_of i l n, ih h)) (λ l ls e n h. cc)
