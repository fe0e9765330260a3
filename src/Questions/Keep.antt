-- ===== src/Questions/Keep.antt =====
-- Later runs, for other questions too, take no distribution from a question and add none but theirs.
use meta_security.Prelude.{
  ◌≡◌, ◌⊎◌, refl, ap, sym, ◌∙◌, true, List, [], ◌∷◌, ◌++◌, Option, none, some, arith, Bool-cases,
  inl, inr,
}
use meta_security.Text.{Str, mem}
use meta_security.Text.Equality.{str_eq_refl}
use meta_security.Questions.Lines.{is_label, is_require, amend}
use meta_security.Questions.Amend.{IsName, is_require-amend, is_require-is_label}
use meta_security.Questions.Grows.{Extends, same, amended, Grows}
use meta_security.Questions.View.{add_distro}
use meta_security.Questions.Distros.{
  own_distros, own_require, is_label_of, distros_of, with_distro, amend-add_distro,
}

mem_last : (d : Str) (ds : List Str) → mem d (ds ++ (d ∷ [])) ≡ true
unfolding mem
mem_last d [] = ground (arith, str_eq_refl d)
mem_last d (x ∷ ds) = ground (arith, mem_last d ds)

add_distro_twice : (d : Str) (ds : List Str) → add_distro d (add_distro d ds) ≡ add_distro d ds
unfolding add_distro
add_distro_twice d ds = elim (Bool-cases (mem d ds)) [
  | inl y ↦ ground (arith, y)
  | inr n ↦ ground (arith, n, mem_last d ds)
]

pub with_distro_twice :
    (d : Str) (o : Option (List Str)) → with_distro d (with_distro d o) ≡ with_distro d o
with_distro_twice d none = refl
with_distro_twice d (some ds) = ap some (add_distro_twice d ds)

-- As before, or with the distribution.
abbrev pub Keeps : Str → Option (List Str) → Option (List Str) → Type 0
Keeps d o o' = (o' ≡ o) ⊎ (o' ≡ with_distro d o)

Extends-is_label :
    (d l m : Str) → Extends d l m → (is_label m ≡ is_label l) × (is_require m ≡ is_require l)
Extends-is_label d l m (same e) = rw e (refl, refl)
Extends-is_label d l m (amended y c e) =
    let y' = is_require-amend d l y in
    rw e (is_require-is_label (amend d l) y' ∙ sym (is_require-is_label l y), y' ∙ sym y)

Extends-is_label_of : (i d l m : Str) → Extends d l m → is_label_of i m ≡ is_label_of i l
unfolding is_label_of
Extends-is_label_of i d l m (same e) = rw e refl
Extends-is_label_of i d l m (amended y c e) =
    let n = is_require-is_label l y in
    let n' = is_require-is_label (amend d l) (is_require-amend d l y) in
    rw e (ground (arith, n, n'))

Extends-own :
    (d l m : Str) (ls ms : List Str)
    → IsName d
    → Extends d l m
    → is_require l ≡ true
    → Keeps d (own_distros (l ∷ ls)) (own_distros (m ∷ ms))
Extends-own d l m ls ms name (same e) y =
    inl (own_require m ms (ap is_require (sym e) ∙ y) ∙ (rw e refl) ∙ sym (own_require l ls y))
Extends-own d l m ls ms name (amended y c e) _ = inr (
    ap (λ (x : Str). own_distros (x ∷ ms)) e
    ∙ (own_require (amend d l) ms (is_require-amend d l y)
        ∙ ap some (amend-add_distro d l name c)
        ∙ sym (ap (with_distro d) (own_require l ls y))))

Grows-own :
    (d : Str) (ls ms : List Str)
    → IsName d
    → Grows d ls ms
    → Keeps d (own_distros ls) (own_distros ms)
unfolding own_distros
Grows-own d [] [] name g = inl refl
Grows-own d [] (m ∷ ms) name g = absurd g
Grows-own d (l ∷ ls) [] name g = absurd g
Grows-own d (l ∷ ls) (m ∷ ms) name (x, g) =
    let (a, b) = Extends-is_label d l m x in
    elim (Bool-cases (is_require l)) [
      | inl y ↦ Extends-own d l m ls ms name x y
      | inr n ↦ elim (Bool-cases (is_label l)) [
        | inl k ↦ inl (ground (arith, a, k))
        | inr k ↦ elim (Grows-own d ls ms name g) [
          | inl e ↦ inl (ground (arith, a, b, n, k, e))
          | inr e ↦ inr (ground (arith, a, b, n, k, e))
        ]
      ]
    ]

-- Lines that have been extended by the distribution require it of a question or not, and nothing else
-- has come to the question.
pub Grows-distros_of :
    (i d : Str) (ls ms : List Str)
    → IsName d
    → Grows d ls ms
    → Keeps d (distros_of i ls) (distros_of i ms)
unfolding distros_of
Grows-distros_of i d [] [] name g = inl refl
Grows-distros_of i d [] (m ∷ ms) name g = absurd g
Grows-distros_of i d (l ∷ ls) [] name g = absurd g
Grows-distros_of i d (l ∷ ls) (m ∷ ms) name (x, g) =
    let same = Extends-is_label_of i d l m x in
    elim (Bool-cases (is_label_of i l)) [
      | inl y ↦ elim (Grows-own d ls ms name g) [
        | inl e ↦ inl (ground (arith, same, y, e))
        | inr e ↦ inr (ground (arith, same, y, e))
      ]
      | inr n ↦ elim (Grows-distros_of i d ls ms name g) [
        | inl e ↦ inl (ground (arith, same, n, e))
        | inr e ↦ inr (ground (arith, same, n, e))
      ]
    ]

-- A run for the question, and runs around it.
pub Keeps-behind :
    (d : Str) (o o' o'' : Option (List Str))
    → o' ≡ with_distro d o
    → Keeps d o' o''
    → o'' ≡ with_distro d o
Keeps-behind d o o' o'' e (inl k) = k ∙ e
Keeps-behind d o o' o'' e (inr k) = k ∙ ap (with_distro d) e ∙ with_distro_twice d o

pub Keeps-before :
    (d : Str) (o o' o'' : Option (List Str))
    → Keeps d o o'
    → o'' ≡ with_distro d o'
    → o'' ≡ with_distro d o
Keeps-before d o o' o'' (inl k) e = e ∙ ap (with_distro d) k
Keeps-before d o o' o'' (inr k) e = e ∙ ap (with_distro d) k ∙ with_distro_twice d o
