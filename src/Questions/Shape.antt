-- ===== src/Questions/Shape.antt =====
-- `add_requires` on a file of a known shape.
use meta_security.Prelude.{
  ◌≡◌, ap, ◌∙◌, true, false, List, [], ◌∷◌, ◌++◌, arith, ok, finished, yield_first, if◌then◌else◌,
  All,
}
use meta_security.Text.{Str, lit, str_eq, mem, strip, words, split_on}
use meta_security.Text.Equality.{starts_with-append}
use meta_security.Text.Pieces.{Lacks, split_on-Lacks, split_on-append}
use meta_security.Questions.Lines.{
  is_label, is_require, names_label, check_contains, amend, add_to_require, add_requires,
}
use meta_security.Questions.Loops.{add_to_require_other, add_requires_found, add_requires_other}

split_on-label : (s : Str) → split_on b':' (lit "LABEL:" ++ s) ≡ lit "LABEL" ∷ split_on b':' s
unfolding lit
split_on-label s = split_on-append b':' (lit "LABEL") s (ground arith)

-- A line `LABEL:…` with no second colon names what stands behind the colon, without white space
-- around it.
pub names_label_lem :
    (i s : Str) → Lacks b':' s → names_label i (lit "LABEL:" ++ s) ≡ ok (str_eq (strip s) i)
unfolding names_label is_label
names_label_lem i s h =
    ground (arith, starts_with-append (lit "LABEL:") s, split_on-label s, split_on-Lacks b':' s h)

check_contains_lem :
    (d l label ds : Str)
    → split_on b':' l ≡ label ∷ ds ∷ []
    → check_contains l d ≡ ok (mem d (words ds))
unfolding check_contains
check_contains_lem d l label ds e = ground (arith, e)

module _ (d req label ds : Str) (post : List Str) (r : is_require req ≡ true)
    (e : split_on b':' req ≡ label ∷ ds ∷ []) where
  abbrev new_require : Str
  new_require = if mem d (words ds) then req else amend d req

  add_to_require_first : add_to_require d (req ∷ post) ≡ finished (new_require ∷ post)
  unfolding add_to_require
  add_to_require_first = ground (arith, check_contains_lem d req label ds e)

  add_to_require_lem :
      (mid : List Str)
      → All (λ l. is_require l ≡ false) mid
      → add_to_require d (mid ++ (req ∷ post)) ≡ finished (mid ++ (new_require ∷ post))
  add_to_require_lem [] h = add_to_require_first
  add_to_require_lem (l ∷ mid) h =
      add_to_require_other d l (mid ++ (req ∷ post)) h.0
      ∙ ap (yield_first l) (add_to_require_lem mid h.1)

  -- Behind the first line that names the question, the first REQUIRE_DISTRO line gets the name,
  -- unless it lists it already; every other line stays as it is.
  pub add_requires_lem :
      (i lab : Str) (pre mid : List Str)
      → All (λ l. names_label i l ≡ ok false) pre
      → names_label i lab ≡ ok true
      → All (λ l. is_require l ≡ false) mid
      → add_requires i d (pre ++ (lab ∷ mid ++ (req ∷ post)))
        ≡ finished (pre ++ (lab ∷ mid ++ ((if mem d (words ds) then req else amend d req) ∷ post)))
  add_requires_lem i lab [] mid h n m =
      add_requires_found i d lab (mid ++ (req ∷ post)) n
      ∙ ap (yield_first lab) (add_to_require_lem mid m)
  add_requires_lem i lab (l ∷ pre) mid h n m =
      add_requires_other i d l (pre ++ (lab ∷ mid ++ (req ∷ post))) h.0
      ∙ ap (yield_first l) (add_requires_lem i lab pre mid h.1 n m)
