-- ===== src/Questions/Loops.antt =====
-- The two loops of `add_requires`, step by step, and induction over a run of each.
use meta_security.Prelude.{
  ◌≡◌, refl, Bool, true, false, List, [], ◌∷◌, arith, Result, ok, err, failed, yield_first, Gen,
  finished,
}
use meta_security.Text.{Str}
use meta_security.Questions.Lines.{
  Error, check_contains, is_require, names_label, amend, add_to_require, add_requires,
}

-- One step of each loop, by what the tests say of the line.
module _ (d l : Str) (ls : List Str) where
  pub add_to_require_other :
      is_require l ≡ false → add_to_require d (l ∷ ls) ≡ yield_first l (add_to_require d ls)
  unfolding add_to_require
  add_to_require_other n = ground arith

  pub add_to_require_listed :
      is_require l ≡ true
      → check_contains l d ≡ ok true
      → add_to_require d (l ∷ ls) ≡ finished (l ∷ ls)
  unfolding add_to_require
  add_to_require_listed y c = ground arith

  pub add_to_require_amended :
      is_require l ≡ true
      → check_contains l d ≡ ok false
      → add_to_require d (l ∷ ls) ≡ finished (amend d l ∷ ls)
  unfolding add_to_require
  add_to_require_amended y c = ground arith

  pub add_to_require-failed :
      {e : Error}
      → is_require l ≡ true
      → check_contains l d ≡ err e
      → add_to_require d (l ∷ ls) ≡ failed e
  unfolding add_to_require
  add_to_require-failed y c = ground arith

module _ (i d l : Str) (ls : List Str) where
  pub add_requires_found :
      names_label i l ≡ ok true → add_requires i d (l ∷ ls) ≡ yield_first l (add_to_require d ls)
  unfolding add_requires
  add_requires_found h = ground arith

  pub add_requires_other :
      names_label i l ≡ ok false → add_requires i d (l ∷ ls) ≡ yield_first l (add_requires i d ls)
  unfolding add_requires
  add_requires_other h = ground arith

  pub add_requires-failed :
      {e : Error} → names_label i l ≡ err e → add_requires i d (l ∷ ls) ≡ yield_first l (failed e)
  unfolding add_requires
  add_requires-failed h = ground arith

-- Induction over a run of `add_to_require`, and of `add_requires`: what holds of each step holds of
-- every run.
module _ (d : Str) (P : List Str → Gen Error Str → Type 0) (nil : P [] (finished []))
    (other : (l : Str) (ls : List Str) (g : Gen Error Str)
      → is_require l ≡ false
      → P ls g
      → P (l ∷ ls) (yield_first l g))
    (listed : (l : Str) (ls : List Str)
      → is_require l ≡ true
      → check_contains l d ≡ ok true
      → P (l ∷ ls) (finished (l ∷ ls)))
    (changed : (l : Str) (ls : List Str)
      → is_require l ≡ true
      → check_contains l d ≡ ok false
      → P (l ∷ ls) (finished (amend d l ∷ ls)))
    (bad : (l : Str) (ls : List Str) (e : Error)
      → is_require l ≡ true
      → check_contains l d ≡ err e
      → P (l ∷ ls) (failed e)) where
  add_to_require_step :
      (l : Str) (ls : List Str)
      → P ls (add_to_require d ls)
      → (b : Bool) → is_require l ≡ b
      → (r : Result Error Bool) → check_contains l d ≡ r
      → P (l ∷ ls) (add_to_require d (l ∷ ls))
  add_to_require_step l ls ih false n r c =
      rw (add_to_require_other d l ls n) (other l ls (add_to_require d ls) n ih)
  add_to_require_step l ls ih true y (ok true) c =
      rw (add_to_require_listed d l ls y c) (listed l ls y c)
  add_to_require_step l ls ih true y (ok false) c =
      rw (add_to_require_amended d l ls y c) (changed l ls y c)
  add_to_require_step l ls ih true y (err e) c =
      rw (add_to_require-failed d l ls y c) (bad l ls e y c)

  pub add_to_require_ind : (ls : List Str) → P ls (add_to_require d ls)
  unfolding add_to_require
  add_to_require_ind [] = nil
  add_to_require_ind (l ∷ ls) =
      add_to_require_step l ls (add_to_require_ind ls) (is_require l) refl (check_contains l d) refl

module _ (i d : Str) (P : List Str → Gen Error Str → Type 0) (nil : P [] (finished []))
    (found : (l : Str) (ls : List Str)
      → names_label i l ≡ ok true
      → P (l ∷ ls) (yield_first l (add_to_require d ls)))
    (other : (l : Str) (ls : List Str) (g : Gen Error Str)
      → names_label i l ≡ ok false
      → P ls g
      → P (l ∷ ls) (yield_first l g))
    (bad : (l : Str) (ls : List Str) (e : Error)
      → names_label i l ≡ err e
      → P (l ∷ ls) (yield_first l (failed e))) where
  add_requires_step :
      (l : Str) (ls : List Str)
      → P ls (add_requires i d ls)
      → (r : Result Error Bool) → names_label i l ≡ r
      → P (l ∷ ls) (add_requires i d (l ∷ ls))
  add_requires_step l ls ih (ok true) c = rw (add_requires_found i d l ls c) (found l ls c)
  add_requires_step l ls ih (ok false) c =
      rw (add_requires_other i d l ls c) (other l ls (add_requires i d ls) c ih)
  add_requires_step l ls ih (err e) c = rw (add_requires-failed i d l ls c) (bad l ls e c)

  pub add_requires_ind : (ls : List Str) → P ls (add_requires i d ls)
  unfolding add_requires
  add_requires_ind [] = nil
  add_requires_ind (l ∷ ls) = add_requires_step l ls (add_requires_ind ls) (names_label i l) refl
