-- ===== src/Questions/Require.antt =====
-- The lines for which `add_requires` has nothing left to do.
use meta_security.Prelude.{
  ◌≡◌, refl, Bool, true, false, List, [], ◌∷◌, none, arith, ok, err, Gen, finished, if◌then◌else◌,
}
use meta_security.Text.{Str}
use meta_security.Questions.Lines.{
  Error, check_contains, is_require, names_label, add_to_require, add_requires,
}
use meta_security.Questions.Amend.{IsName, is_require-amend, check_contains-amend}
use meta_security.Questions.Loops.{add_to_require_ind, add_requires_ind}

-- The line lists the distribution.
abbrev lists : Str → Str → Bool
lists d l = elim (check_contains l d) [ ok b ↦ b | err _ ↦ false ]

-- The first REQUIRE_DISTRO line of these, if there is one, lists the distribution.
unfoldable pub settled_next : Str → List Str → Bool
settled_next d [] = true
settled_next d (l ∷ ls) = let rest = settled_next d ls in if is_require l then lists d l else rest

-- So does the one behind the first label that the code takes for this question's, if there is one.
unfoldable pub settled : Str → Str → List Str → Bool
settled i d [] = true
settled i d (l ∷ ls) =
    let rest = settled i d ls in
    elim (names_label i l) [ ok true ↦ settled_next d ls | ok false ↦ rest | err _ ↦ false ]

abbrev SettledNext : Str → List Str → Gen Error Str → Type 0
SettledNext d ls g = g.stop ≡ none → settled_next d g.items ≡ true

add_to_require-SettledNext :
    (d : Str) → IsName d → (ls : List Str) → SettledNext d ls (add_to_require d ls)
unfolding settled_next
add_to_require-SettledNext d name =
    add_to_require_ind d (SettledNext d) (λ _. refl) (λ l ls g n ih h. ground (arith, ih h))
      (λ l ls y c h. ground arith)
      (λ l ls y c h. ground (arith, is_require-amend d l y, check_contains-amend d l name c))
      (λ l ls e y c h. cc)

-- After a run that ends nothing is left to do.
pub add_requires-settled :
    (i d : Str)
    → IsName d
    → (ls : List Str) → (add_requires i d ls).stop ≡ none
    → settled i d (add_requires i d ls).items ≡ true
unfolding settled
add_requires-settled i d name =
    add_requires_ind i d (λ ls g. g.stop ≡ none → settled i d g.items ≡ true) (λ _. refl)
      (λ l ls n h. ground (arith, add_to_require-SettledNext d name ls h))
      (λ l ls g n ih h. ground (arith, ih h)) (λ l ls e n h. cc)

pub settled-add_to_require :
    (d : Str) (ls : List Str) → settled_next d ls ≡ true → add_to_require d ls ≡ finished ls
unfolding settled_next add_to_require
settled-add_to_require d [] h = refl
settled-add_to_require d (l ∷ ls) h = ground (arith, settled-add_to_require d ls)

pub settled-add_requires :
    (i d : Str) (ls : List Str) → settled i d ls ≡ true → add_requires i d ls ≡ finished ls
unfolding settled add_requires
settled-add_requires i d [] h = refl
settled-add_requires i d (l ∷ ls) h =
    ground (arith, settled-add_to_require d ls, settled-add_requires i d ls)
