-- ===== src/Text/Equality.antt =====
-- `==` and `in` decide equality and membership.
use meta_security.Prelude.{◌≡◌, refl, true, ◌||◌, List, [], ◌∷◌, ◌++◌, arith}
use meta_security.Text.Defs.{Str, str_eq, mem, starts_with}

pub str_eq_refl : (s : Str) → str_eq s s ≡ true
unfolding str_eq
str_eq_refl [] = refl
str_eq_refl (c ∷ s) = ground (arith, str_eq_refl s)

pub str_eq→eq : (s t : Str) → str_eq s t ≡ true → s ≡ t
unfolding str_eq
str_eq→eq [] [] h = refl
str_eq→eq [] (d ∷ t) h = cc
str_eq→eq (c ∷ s) [] h = cc
str_eq→eq (c ∷ s) (d ∷ t) h = ground (arith, str_eq→eq s t)

pub mem-append : (x : Str) (ys zs : List Str) → mem x (ys ++ zs) ≡ (mem x ys || mem x zs)
unfolding mem
mem-append x [] zs = refl
mem-append x (y ∷ ys) zs = ground (arith, mem-append x ys zs)

pub mem_last : (x : Str) (ys : List Str) → mem x (ys ++ (x ∷ [])) ≡ true
unfolding mem
mem_last x [] = ground (arith, str_eq_refl x)
mem_last x (y ∷ ys) = ground (arith, mem_last x ys)

-- `startswith` finds a prefix, and only that.
pub starts_with→append : (s p : Str) → starts_with s p ≡ true → (r : Str) × (s ≡ p ++ r)
unfolding starts_with
starts_with→append s [] h = (s, refl)
starts_with→append [] (d ∷ p) h = cc
starts_with→append (c ∷ s) (d ∷ p) h =
    let (r, e) = starts_with→append s p (ground arith) in (r, ground arith)

pub starts_with-append : (p r : Str) → starts_with (p ++ r) p ≡ true
unfolding starts_with
starts_with-append [] r = refl
starts_with-append (c ∷ p) r = ground (arith, starts_with-append p r)
