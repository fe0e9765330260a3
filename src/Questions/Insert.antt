-- ===== src/Questions/Insert.antt =====
-- `add_requires` refines `insert`, and insertions of one distribution commute.
use meta_security.Prelude.{
  ◌≡◌, refl, ap, ◌∙◌, Bool, true, false, List, [], ◌∷◌, none, arith, ok, finished, Bool-cases, inl,
  inr,
}
use meta_security.Text.{Str, str_eq, strip}
use meta_security.Questions.Lines.{is_label, is_require, add_requires}
use meta_security.Questions.Amend.{IsName}
use meta_security.Questions.Loops.{add_requires_found, add_requires_other}
use meta_security.Questions.View.{
  Question, view, is_questions, has_value, value_of, insert, names_label-value_of, names_label_none,
}
use meta_security.Questions.Refines.{
  Inserts, add_to_require-Adds, Inserts-found, Inserts-label, Inserts-require, Inserts-other,
}

-- What a label, and a line that is none, say of the lines behind them.
label_rest :
    (due : Bool) (l : Str) (ls : List Str)
    → is_questions due (l ∷ ls) ≡ true
    → is_label l ≡ true
    → (has_value l ≡ true) × (is_questions true ls ≡ true)
unfolding is_questions
label_rest due l ls q y = ground (arith, q, y)

require_rest :
    (due : Bool) (l : Str) (ls : List Str)
    → is_questions due (l ∷ ls) ≡ true
    → is_label l ≡ false
    → is_require l ≡ true
    → is_questions false ls ≡ true
unfolding is_questions
require_rest due l ls q n y = ground (arith, q, n, y)

other_rest :
    (due : Bool) (l : Str) (ls : List Str)
    → is_questions due (l ∷ ls) ≡ true
    → is_label l ≡ false
    → is_require l ≡ false
    → is_questions due ls ≡ true
unfolding is_questions
other_rest due l ls q n m = ground (arith, q, n, m)

Inserts-nil :
    (i d : Str) (due : Bool) → is_questions due [] ≡ true → Inserts i d due [] (finished [])
unfolding view insert
Inserts-nil i d due q = record { ends = refl; kept = q; viewed = refl; next = λ _. refl }

module _ (i d : Str) (name : IsName d) where
  Inserts-step :
      (due : Bool) (l : Str) (ls : List Str)
      → is_questions due (l ∷ ls) ≡ true
      → ((due' : Bool) → is_questions due' ls ≡ true → Inserts i d due' ls (add_requires i d ls))
      → Inserts i d due (l ∷ ls) (add_requires i d (l ∷ ls))
  Inserts-step due l ls q ih = elim (Bool-cases (is_label l)) [
    | inl y ↦
        let (h, r) = label_rest due l ls q y in
        let e = names_label-value_of i l y h in
        elim (Bool-cases (str_eq (strip (value_of l)) i)) [
          | inl m ↦
              rw (add_requires_found i d l ls (e ∙ ap ok m))
                (Inserts-found i d l ls due q y m (add_to_require-Adds d name ls r))
          | inr m ↦
              rw (add_requires_other i d l ls (e ∙ ap ok m))
                (Inserts-label i d l ls due (add_requires i d ls) q y m (ih true r))
        ]
    | inr n ↦
        rw (add_requires_other i d l ls (names_label_none i l n))
          (elim (Bool-cases (is_require l)) [
            | inl y ↦
                Inserts-require i d l ls due (add_requires i d ls) q y
                  (ih false (require_rest due l ls q n y))
            | inr m ↦
                Inserts-other i d l ls due (add_requires i d ls) q n m
                  (ih due (other_rest due l ls q n m))
          ])
  ]

  pub add_requires-Inserts :
      (due : Bool) (ls : List Str)
      → is_questions due ls ≡ true
      → Inserts i d due ls (add_requires i d ls)
  unfolding add_requires
  add_requires-Inserts due [] q = Inserts-nil i d due q
  add_requires-Inserts due (l ∷ ls) q =
      Inserts-step due l ls q (λ due'. add_requires-Inserts due' ls)

-- For a distribution that is a word without a colon, and a file in which every question has a
-- REQUIRE_DISTRO line of its own, and these lines and the labels have one colon: `add_requires`
-- ends, yields such a file again, and does to its view what the abstract `insert` does.
pub add_requires-insert :
    (i d : Str)
    → IsName d
    → (ls : List Str) → is_questions false ls ≡ true
    → ((add_requires i d ls).stop ≡ none)
      × (is_questions false (add_requires i d ls).items ≡ true)
      × (view (add_requires i d ls).items ≡ insert i d (view ls))
add_requires-insert i d name ls q =
    let r = add_requires-Inserts i d name false ls q in (r.ends, r.kept, r.viewed)

-- Two insertions of one distribution commute, as far as the view shows.
pub insert_comm :
    (i j d : Str) (qs : List Question) → insert i d (insert j d qs) ≡ insert j d (insert i d qs)
unfolding insert
insert_comm i j d [] = refl
insert_comm i j d ((k, ds) ∷ qs) = ground (arith, insert_comm i j d qs)
