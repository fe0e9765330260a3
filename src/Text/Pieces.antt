-- ===== src/Text/Pieces.antt =====
-- `split(sep)`: what the pieces hold, and when there are exactly two.
use meta_security.Prelude.{ℕ, ◌≡◌, ◌≢◌, refl, List, [], ◌∷◌, ◌++◌, arith, All}
use meta_security.Text.Defs.{Str, split_on}

-- The text has no such character.
abbrev pub Lacks : ℕ → Str → Type 0
Lacks sep = All (λ c. c ≢ sep)

split_on-ne-nil : (sep : ℕ) (s : Str) → split_on sep s ≢ []
unfolding split_on
split_on-ne-nil sep [] = ground arith
split_on-ne-nil sep (c ∷ s) = ground (arith, split_on-ne-nil sep s)

-- A text without the separator is one piece.
pub split_on-Lacks : (sep : ℕ) (s : Str) → Lacks sep s → split_on sep s ≡ s ∷ []
unfolding split_on
split_on-Lacks sep [] h = refl
split_on-Lacks sep (c ∷ s) h = ground (arith, split_on-Lacks sep s h.1)

-- The first separator ends the first piece.
pub split_on-append :
    (sep : ℕ) (s t : Str) → Lacks sep s → split_on sep (s ++ (sep ∷ t)) ≡ s ∷ split_on sep t
unfolding split_on
split_on-append sep [] t h = ground arith
split_on-append sep (c ∷ s) t h = ground (arith, split_on-append sep s t h.1)

pub split_on-cases : (sep : ℕ) (s : Str) → (w : Str) × (ws : List Str) × (split_on sep s ≡ w ∷ ws)
split_on-cases sep s = go (split_on sep s) refl
  where
    go :
        (r : List Str)
        → split_on sep s ≡ r
        → (w : Str) × (ws : List Str) × (split_on sep s ≡ w ∷ ws)
    go [] e = absurd (split_on-ne-nil sep s e)
    go (w ∷ ws) e = (w, ws, e)

-- One piece is the whole text.
pub split_on_one : (sep : ℕ) (s a : Str) → split_on sep s ≡ a ∷ [] → (s ≡ a) × Lacks sep a
unfolding split_on
split_on_one sep [] a h = ground arith
split_on_one sep (c ∷ s) a h =
    let (w, ws, e) = split_on-cases sep s in ground (arith, e, split_on_one sep s w)

-- Two pieces are the text on both sides of its only separator.
pub split_on_two :
    (sep : ℕ) (s a b : Str)
    → split_on sep s ≡ a ∷ b ∷ []
    → (s ≡ a ++ (sep ∷ b)) × Lacks sep a × Lacks sep b
unfolding split_on
split_on_two sep [] a b h = cc
split_on_two sep (c ∷ s) a b h =
    let (w, ws, e) = split_on-cases sep s in
    ground (arith, e, split_on_one sep s w, split_on_two sep s w b)
