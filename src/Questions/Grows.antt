-- ===== src/Questions/Grows.antt =====
-- What `add_requires` may do to a file: extend REQUIRE_DISTRO lines by the name, and nothing else.
use meta_security.Prelude.{
  ◌≡◌, ◌≢◌, ◌⊎◌, refl, ap, suc, true, false, List, [], ◌∷◌, ◌++◌, none, ok, Gen, inl, inr, length,
}
use meta_security.Text.{Str}
use meta_security.Questions.Lines.{
  Error, check_contains, is_require, amend, add_to_require, add_requires,
}
use meta_security.Text.Pieces.{Lacks}
use meta_security.Questions.Newlines.{IsEnded, IsOpen, AreFile, amend-IsEnded, amend-Lacks}
use meta_security.Questions.Loops.{add_to_require_ind, add_requires_ind}
use meta_security.Questions.Amend.{IsName}

-- A line that stays as it is, or a REQUIRE_DISTRO line that lacks the name and is amended.
pub data Extends (d l m : Str) : Type 0 where
  same : l ≡ m → Extends d l m
  amended : is_require l ≡ true → check_contains l d ≡ ok false → m ≡ amend d l → Extends d l m

abbrev pub Grows : Str → List Str → List Str → Type 0
Grows d [] [] = Unit
Grows d [] (m ∷ ms) = ⊥
Grows d (l ∷ ls) [] = ⊥
Grows d (l ∷ ls) (m ∷ ms) = Extends d l m × Grows d ls ms

pub Grows-refl : (d : Str) (ls : List Str) → Grows d ls ls
Grows-refl d [] = tt
Grows-refl d (l ∷ ls) = (same refl, Grows-refl d ls)

-- A run that ends has extended lines only.
abbrev GrowsTo : Str → List Str → Gen Error Str → Type 0
GrowsTo d ls g = g.stop ≡ none → Grows d ls g.items

add_to_require-Grows : (d : Str) (ls : List Str) → GrowsTo d ls (add_to_require d ls)
add_to_require-Grows d =
    add_to_require_ind d (GrowsTo d) (λ _. tt) (λ l ls g n ih h. (same refl, ih h))
      (λ l ls y c h. (same refl, Grows-refl d ls))
      (λ l ls y c h. (amended y c refl, Grows-refl d ls)) (λ l ls e y c h. cc)

-- When `add_requires` ends, it has yielded one line for each line that it was given: the same line,
-- or, for a REQUIRE_DISTRO line that lacks the name, the line amended by the name.
pub add_requires-Grows :
    (i d : Str) (ls : List Str)
    → (add_requires i d ls).stop ≡ none
    → Grows d ls (add_requires i d ls).items
add_requires-Grows i d =
    add_requires_ind i d (GrowsTo d) (λ _. tt)
      (λ l ls n h. (same refl, add_to_require-Grows d ls h)) (λ l ls g n ih h. (same refl, ih h))
      (λ l ls e n h. cc)

-- A run that raises has yielded lines of the file as they were, from the first on.
abbrev StopsIn : List Str → Gen Error Str → Type 0
StopsIn ls g = g.stop ≢ none → (rest : List Str) × (g.items ++ rest ≡ ls)

cons_rest :
    (l : Str) (ls items : List Str)
    → (rest : List Str) × (items ++ rest ≡ ls)
    → (rest : List Str) × ((l ∷ items) ++ rest ≡ l ∷ ls)
cons_rest l ls items (rest, e) = (rest, ap (λ (r : List Str). l ∷ r) e)

add_to_require-StopsIn : (d : Str) (ls : List Str) → StopsIn ls (add_to_require d ls)
add_to_require-StopsIn d =
    add_to_require_ind d StopsIn (λ h. absurd (h refl))
      (λ l ls g n ih h. cons_rest l ls g.items (ih h)) (λ l ls y c h. absurd (h refl))
      (λ l ls y c h. absurd (h refl)) (λ l ls e y c h. (l ∷ ls, refl))

-- An error leaves nothing changed: what has been yielded when `add_requires` raises is a first part
-- of the lines that it was given.
pub add_requires-StopsIn :
    (i d : Str) (ls : List Str)
    → (add_requires i d ls).stop ≢ none
    → (rest : List Str) × ((add_requires i d ls).items ++ rest ≡ ls)
add_requires-StopsIn i d =
    add_requires_ind i d StopsIn (λ h. absurd (h refl))
      (λ l ls n h. cons_rest l ls _ (add_to_require-StopsIn d ls h))
      (λ l ls g n ih h. cons_rest l ls g.items (ih h)) (λ l ls e n h. (ls, refl))

length-Grows : (d : Str) (ls ms : List Str) → Grows d ls ms → length ms ≡ length ls
length-Grows d [] [] g = refl
length-Grows d [] (m ∷ ms) g = absurd g
length-Grows d (l ∷ ls) [] g = absurd g
length-Grows d (l ∷ ls) (m ∷ ms) g = ap suc (length-Grows d ls ms g.1)

-- A file whose lines have been extended is a file.
Extends-IsEnded :
    (d l m : Str) (ls ms : List Str)
    → IsName d
    → Extends d l m
    → Grows d ls ms
    → IsEnded l ⊎ (IsOpen l × (ls ≡ []))
    → IsEnded m ⊎ (IsOpen m × (ms ≡ []))
Extends-IsEnded d l m ls ms n (same e) g (inl h) = inl (rw (← e) h)
Extends-IsEnded d l m [] [] n (same e) g (inr (h, _)) = inr (rw (← e) h, refl)
Extends-IsEnded d l m [] (b ∷ ms) n (same e) g (inr h) = absurd g
Extends-IsEnded d l m (a ∷ ls) ms n (same e) g (inr (h, e')) = cc
Extends-IsEnded d l m ls ms n (amended y c e) g h = inl (rw e (amend-IsEnded d l ls n.0.1 h))

Extends-Lacks : (d l m : Str) → IsName d → Extends d l m → Lacks 13 l → Lacks 13 m
Extends-Lacks d l m n (same e) h = rw (← e) h
Extends-Lacks d l m n (amended y c e) h = rw e (amend-Lacks d l n.0.1 h)

pub Grows-AreFile :
    (d : Str) (ls ms : List Str) → IsName d → Grows d ls ms → AreFile ls → AreFile ms
Grows-AreFile d [] [] n g h = (tt, tt)
Grows-AreFile d [] (m ∷ ms) n g h = absurd g
Grows-AreFile d (l ∷ ls) [] n g h = absurd g
Grows-AreFile d (l ∷ ls) (m ∷ ms) n (x, g) ((h, hs), (k, ks)) =
    let (r, r') = Grows-AreFile d ls ms n g (hs, ks) in
    ((Extends-IsEnded d l m ls ms n x g h, r), (Extends-Lacks d l m n x k, r'))
