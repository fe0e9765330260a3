-- ===== src/Questions/View.antt =====
-- An abstract view of a questions file: its questions, each with the distributions that it requires.
use meta_security.Prelude.{
  ◌≡◌, refl, Bool, true, false, not, ◌&&◌, List, [], ◌∷◌, ◌++◌, arith, Result, ok, err,
  if◌then◌else◌,
}
use meta_security.Text.{Str, str_eq, mem, strip, words, split_on}
use meta_security.Questions.Lines.{unpack, check_contains, is_label, is_require, names_label, amend}
use meta_security.Questions.Amend.{IsName, words-amend, is_require-is_label, check_contains-cases}

-- The identifier of a question, and the distributions that it requires.
abbrev pub Question : Type 0
Question = Str × List Str

-- What stands behind the colon of a line that has one.
unfoldable pub value_of : Str → Str
value_of l = elim (unpack (split_on b':' l)) [ ok (label, value) ↦ value | err _ ↦ [] ]

unfoldable pub has_value : Str → Bool
has_value l = elim (unpack (split_on b':' l)) [ ok _ ↦ true | err _ ↦ false ]

-- The distributions of the first REQUIRE_DISTRO line.
unfoldable pub next_distros : List Str → List Str
next_distros [] = []
next_distros (l ∷ ls) =
    let rest = next_distros ls in if is_require l then words (value_of l) else rest

unfoldable pub view : List Str → List Question
unfolding value_of next_distros
view [] = []
view (l ∷ ls) =
    let rest = view ls in if is_label l then (strip (value_of l), next_distros ls) ∷ rest else rest

-- A file in which every LABEL line and every REQUIRE_DISTRO line has one colon, and every question
-- has a REQUIRE_DISTRO line of its own. The flag is set between a label and that line.
unfoldable pub is_questions : Bool → List Str → Bool
unfolding has_value
is_questions due [] = not due
is_questions due (l ∷ ls) =
    let behind = is_questions true ls in
    let closed = is_questions false ls in
    let rest = is_questions due ls in
    if is_label l
    then not due && (has_value l && behind)
    else if is_require l
    then has_value l && closed
    else rest

-- The abstract operation: the first question of the name requires the distribution too.
unfoldable pub add_distro : Str → List Str → List Str
add_distro d ds = if mem d ds then ds else ds ++ (d ∷ [])

unfoldable pub insert : Str → Str → List Question → List Question
unfolding add_distro
insert i d [] = []
insert i d ((j, ds) ∷ qs) =
    let rest = insert i d qs in if str_eq j i then (j, add_distro d ds) ∷ qs else (j, ds) ∷ rest

-- The values of a line decide what the code reads in it.
pub check_contains-value_of :
    (d l : Str) → has_value l ≡ true → check_contains l d ≡ ok (mem d (words (value_of l)))
unfolding has_value value_of check_contains
check_contains-value_of d l h = go (unpack (split_on b':' l)) refl
  where
    go :
        (r : Result Str (Str × Str))
        → unpack (split_on b':' l) ≡ r
        → check_contains l d ≡ ok (mem d (words (value_of l)))
    go (ok (a, b)) e = ground (arith, e)
    go (err x) e = ground (arith, e)

pub names_label-value_of :
    (i l : Str)
    → is_label l ≡ true
    → has_value l ≡ true
    → names_label i l ≡ ok (str_eq (strip (value_of l)) i)
unfolding has_value value_of names_label
names_label-value_of i l y h = go (unpack (split_on b':' l)) refl
  where
    go :
        (r : Result Str (Str × Str))
        → unpack (split_on b':' l) ≡ r
        → names_label i l ≡ ok (str_eq (strip (value_of l)) i)
    go (ok (a, b)) e = ground (arith, e, y)
    go (err x) e = ground (arith, e)

pub names_label_none : (i l : Str) → is_label l ≡ false → names_label i l ≡ ok false
unfolding names_label
names_label_none i l n = ground arith

value_of_lem :
    (l label ds : Str)
    → split_on b':' l ≡ label ∷ ds ∷ []
    → (has_value l ≡ true) × (value_of l ≡ ds)
unfolding has_value value_of
value_of_lem l label ds e = (ground (arith, e), ground (arith, e))

-- An amended line has the distributions of the line and the new one.
pub amend-value_of :
    (d l : Str)
    → IsName d
    → check_contains l d ≡ ok false
    → (has_value (amend d l) ≡ true)
      × (words (value_of (amend d l)) ≡ words (value_of l) ++ (d ∷ []))
amend-value_of d l name c =
    let (label, ds, e, m) = check_contains-cases d l c in
    let (ds', e', w) = words-amend d l label ds name e in
    let (h, v) = value_of_lem l label ds e in
    let (h', v') = value_of_lem (amend d l) label ds' e' in (h', rw (v', v) w)

pub mem-value_of :
    (d l : Str) {b : Bool}
    → has_value l ≡ true
    → check_contains l d ≡ ok b
    → mem d (words (value_of l)) ≡ b
mem-value_of d l h c = ground (arith, check_contains-value_of d l h, c)

pub next_distros_first :
    (l : Str) (ls : List Str) → is_require l ≡ true → next_distros (l ∷ ls) ≡ words (value_of l)
unfolding next_distros
next_distros_first l ls y = ground arith

pub require-has_value :
    (due : Bool) (l : Str) (ls : List Str)
    → is_questions due (l ∷ ls) ≡ true
    → is_require l ≡ true
    → has_value l ≡ true
unfolding is_questions
require-has_value due l ls q y = ground (arith, is_require-is_label l y)
