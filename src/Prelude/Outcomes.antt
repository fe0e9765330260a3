-- ===== src/Prelude/Outcomes.antt =====
-- A value or the exception that was raised in its place.
use mathlib.Core.Path.{◌≡◌, refl}
use mathlib.Core.Logic.{◌⊎◌, inl, inr}
use mathlib.Core.Option.{Option, none, some}
use mathlib.Core.List.{List, [], ◌∷◌}

pub data Result (E A : Type 0) : Type 0 where
  ok : A → Result E A
  err : E → Result E A

-- A generator: what it yields, and the exception that ends it, if one does.
pub record Gen (E A : Type 0) : Type 0 where
  pub items : List A
  pub stop : Option E

module _ {E A : Type 0} where
  pub Result-cases : (r : Result E A) → ((a : A) × (r ≡ ok a)) ⊎ ((e : E) × (r ≡ err e))
  Result-cases (ok a) = inl (a, refl)
  Result-cases (err e) = inr (e, refl)

module _ {E A : Type 0} where
  abbrev pub finished : List A → Gen E A
  finished xs = record { items = xs; stop = none }

  abbrev pub failed : E → Gen E A
  failed e = record { items = []; stop = some e }

  abbrev pub yield_first : A → Gen E A → Gen E A
  yield_first x g = record { items = x ∷ g.items; stop = g.stop }
