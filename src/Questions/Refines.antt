-- ===== src/Questions/Refines.antt =====
-- `add_requires` does to a questions file what `insert` does to its view.
use meta_security.Prelude.{
  ◌≡◌, refl, ap, sym, ◌∙◌, Bool, true, false, List, [], ◌∷◌, none, arith, ok, Gen, finished,
  yield_first, Bool-cases, inl, inr,
}
use meta_security.Text.{Str, str_eq, mem, strip, words}
use meta_security.Questions.Lines.{
  Error, check_contains, is_label, is_require, amend, add_to_require,
}
use meta_security.Questions.Amend.{IsName, is_require-amend, is_require-is_label}
use meta_security.Questions.Loops.{
  add_to_require_other, add_to_require_listed, add_to_require_amended,
}
use meta_security.Questions.View.{
  next_distros, view, is_questions, add_distro, insert, value_of, amend-value_of, mem-value_of,
  next_distros_first, require-has_value, check_contains-value_of,
}

-- What a run does to the view: `due` says whether a label waits for its REQUIRE_DISTRO line.
pub record Inserts (i d : Str) (due : Bool) (ls : List Str) (g : Gen Error Str) : Type 0 where
  pub ends : g.stop ≡ none
  pub kept : is_questions due g.items ≡ true
  pub viewed : view g.items ≡ insert i d (view ls)
  pub next : due ≡ true → next_distros g.items ≡ next_distros ls

-- What the second loop does behind the label.
pub record Adds (d : Str) (ls : List Str) (g : Gen Error Str) : Type 0 where
  ends : g.stop ≡ none
  kept : is_questions true g.items ≡ true
  viewed : view g.items ≡ view ls
  next : next_distros g.items ≡ add_distro d (next_distros ls)

-- A line that is no REQUIRE_DISTRO line: then it is no label either, since one is due.
due-is_label : (l : Str) (ls : List Str) → is_questions true (l ∷ ls) ≡ true → is_label l ≡ false
unfolding is_questions
due-is_label l ls q = ground arith

due_rest :
    (l : Str) (ls : List Str)
    → is_questions true (l ∷ ls) ≡ true
    → is_require l ≡ false
    → is_questions true ls ≡ true
unfolding is_questions
due_rest l ls q n = ground (arith, n, due-is_label l ls q)

Adds-other :
    (d l : Str) (ls : List Str) (g : Gen Error Str)
    → is_questions true (l ∷ ls) ≡ true
    → is_require l ≡ false
    → Adds d ls g
    → Adds d (l ∷ ls) (yield_first l g)
unfolding is_questions view next_distros
Adds-other d l ls g q n a =
    let m = due-is_label l ls q in
    record {
      ends = a.ends;
      kept = ground (arith, n, m, a.kept);
      viewed = ground (arith, m, a.viewed);
      next = ground (arith, n, a.next);
    }

Adds-listed :
    (d l : Str) (ls : List Str)
    → is_questions true (l ∷ ls) ≡ true
    → is_require l ≡ true
    → check_contains l d ≡ ok true
    → Adds d (l ∷ ls) (finished (l ∷ ls))
unfolding add_distro
Adds-listed d l ls q y c = record {
  ends = refl;
  kept = q;
  viewed = refl;
  next =
      rw
        (
          next_distros_first l ls y,
          add_distro,
          mem-value_of d l (require-has_value true l ls q y) c,
        )
        refl;
}

Adds-amended :
    (d l : Str) (ls : List Str)
    → IsName d
    → is_questions true (l ∷ ls) ≡ true
    → is_require l ≡ true
    → check_contains l d ≡ ok false
    → Adds d (l ∷ ls) (finished (amend d l ∷ ls))
unfolding is_questions view add_distro
Adds-amended d l ls name q y c =
    let y' = is_require-amend d l y in
    let n = is_require-is_label l y in
    let n' = is_require-is_label (amend d l) y' in
    let (h, w) = amend-value_of d l name c in
    record {
      ends = refl;
      kept = ground (arith, y, y', n, n', h);
      viewed = ground (arith, n, n');
      next =
          next_distros_first (amend d l) ls y'
          ∙ (w
              ∙ sym (
                  rw
                    (
                      next_distros_first l ls y,
                      add_distro,
                      mem-value_of d l (require-has_value true l ls q y) c,
                    )
                    refl));
    }

not_due : ¬ (is_questions true [] ≡ true)
unfolding is_questions
not_due q = cc

module _ (d : Str) (name : IsName d) where
  Adds-step :
      (l : Str) (ls : List Str)
      → is_questions true (l ∷ ls) ≡ true
      → (is_questions true ls ≡ true → Adds d ls (add_to_require d ls))
      → Adds d (l ∷ ls) (add_to_require d (l ∷ ls))
  Adds-step l ls q ih = elim (Bool-cases (is_require l)) [
    | inr n ↦
        rw (add_to_require_other d l ls n)
          (Adds-other d l ls (add_to_require d ls) q n (ih (due_rest l ls q n)))
    | inl y ↦
        let c = check_contains-value_of d l (require-has_value true l ls q y) in
        elim (Bool-cases (mem d (words (value_of l)))) [
          | inl m ↦
              let c' : check_contains l d ≡ ok true = c ∙ ap ok m in
              rw (add_to_require_listed d l ls y c') (Adds-listed d l ls q y c')
          | inr m ↦
              let c' : check_contains l d ≡ ok false = c ∙ ap ok m in
              rw (add_to_require_amended d l ls y c') (Adds-amended d l ls name q y c')
        ]
  ]

  pub add_to_require-Adds :
      (ls : List Str) → is_questions true ls ≡ true → Adds d ls (add_to_require d ls)
  add_to_require-Adds [] q = absurd (not_due q)
  add_to_require-Adds (l ∷ ls) q = Adds-step l ls q (add_to_require-Adds ls)

module _ (i d l : Str) (ls : List Str) where
  -- The label of the question: the second loop follows.
  pub Inserts-found :
      (due : Bool)
      → is_questions due (l ∷ ls) ≡ true
      → is_label l ≡ true
      → str_eq (strip (value_of l)) i ≡ true
      → Adds d ls (add_to_require d ls)
      → Inserts i d due (l ∷ ls) (yield_first l (add_to_require d ls))
  unfolding is_questions view insert
  Inserts-found due q y e a = record {
    ends = a.ends;
    kept = ground (arith, q, y, a.kept);
    viewed = ground (arith, y, e, a.viewed, a.next);
    next = ground (arith, q, y);
  }

  -- The label of another question.
  pub Inserts-label :
      (due : Bool) (g : Gen Error Str)
      → is_questions due (l ∷ ls) ≡ true
      → is_label l ≡ true
      → str_eq (strip (value_of l)) i ≡ false
      → Inserts i d true ls g
      → Inserts i d due (l ∷ ls) (yield_first l g)
  unfolding is_questions view insert
  Inserts-label due g q y e a = record {
    ends = a.ends;
    kept = ground (arith, q, y, a.kept);
    viewed = ground (arith, y, e, a.viewed, a.next refl);
    next = ground (arith, q, y);
  }

  pub Inserts-require :
      (due : Bool) (g : Gen Error Str)
      → is_questions due (l ∷ ls) ≡ true
      → is_require l ≡ true
      → Inserts i d false ls g
      → Inserts i d due (l ∷ ls) (yield_first l g)
  unfolding is_questions view
  Inserts-require due g q y a =
      let n = is_require-is_label l y in
      record {
        ends = a.ends;
        kept = ground (arith, q, y, n, a.kept);
        viewed = ground (arith, n, a.viewed);
        next = λ _. next_distros_first l g.items y ∙ sym (next_distros_first l ls y);
      }

  pub Inserts-other :
      (due : Bool) (g : Gen Error Str)
      → is_questions due (l ∷ ls) ≡ true
      → is_label l ≡ false
      → is_require l ≡ false
      → Inserts i d due ls g
      → Inserts i d due (l ∷ ls) (yield_first l g)
  unfolding is_questions view next_distros
  Inserts-other due g q n m a = record {
    ends = a.ends;
    kept = ground (arith, q, n, m, a.kept);
    viewed = ground (arith, n, a.viewed);
    next = λ e. ground (arith, m, a.next e);
  }
