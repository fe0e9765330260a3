-- ===== src/Questions/Amend.antt =====
-- What `amend` does to a REQUIRE_DISTRO line: one more word behind the colon.
use meta_security.Prelude.{
  ℕ, ◌≡◌, ◌≢◌, refl, ap, ◌∙◌, Bool, true, false, List, [], ◌∷◌, ◌++◌, append_assoc, arith,
  All-append, All-append_left, ok,
}
use meta_security.Text.{Str, lit, mem, starts_with, is_space, rstrip, words, split_on}
use meta_security.Text.Equality.{mem_last, starts_with→append, starts_with-append}
use meta_security.Text.Pieces.{Lacks, split_on-Lacks, split_on-append, split_on_two}
use meta_security.Text.Words.{
  IsWord, IsDense, rstrip-append, rstrip-append_IsDense, rstrip-append_cons, words-append_word,
}
use meta_security.Questions.Lines.{check_contains, is_label, is_require, amend}

-- A name that stands in a REQUIRE_DISTRO line as one word.
abbrev pub IsName : Str → Type 0
IsName d = IsWord d × Lacks b':' d

rstrip-Lacks : (s : Str) → Lacks b':' s → Lacks b':' (rstrip s)
rstrip-Lacks s h =
    let (t, e, b) = rstrip-append s in All-append_left (λ (c : ℕ). c ≢ b':') (rstrip s) t (rw e h)

abbrev tail_of : Str → Str → Str
tail_of d ds = rstrip ds ++ (32 ∷ d ++ (10 ∷ []))

tail_of-Lacks : (d ds : Str) → IsName d → Lacks b':' ds → Lacks b':' (tail_of d ds)
tail_of-Lacks d ds n h =
    All-append (λ (c : ℕ). c ≢ b':') (rstrip ds) _ (rstrip-Lacks ds h)
      (omega arith, All-append (λ (c : ℕ). c ≢ b':') d (10 ∷ []) n.1 (omega arith, tt))

split_on-amend :
    (d l label ds : Str)
    → IsName d
    → split_on b':' l ≡ label ∷ ds ∷ []
    → split_on b':' (amend d l) ≡ label ∷ tail_of d ds ∷ []
unfolding amend is_space
split_on-amend d l label ds n h =
    let (e, lacks, lacks') = split_on_two b':' l label ds h in
    rw (e, rstrip-append_cons label ds b':' refl, append_assoc)
      (split_on-append b':' label (tail_of d ds) lacks
        ∙ ap (λ (r : List Str). label ∷ r)
            (split_on-Lacks b':' (tail_of d ds) (tail_of-Lacks d ds n lacks')))

-- For a name that is a word without a colon, and a line with one colon: the amended line has one
-- colon too, and the words behind it are those that the line had and the new name.
pub words-amend :
    (d l label ds : Str)
    → IsName d
    → split_on b':' l ≡ label ∷ ds ∷ []
    → (ds' : Str) × (split_on b':' (amend d l) ≡ label ∷ ds' ∷ [])
      × (words ds' ≡ words ds ++ (d ∷ []))
words-amend d l label ds n h =
    (tail_of d ds, split_on-amend d l label ds n h, words-append_word ds d n.0.1 n.0.0)

starts_with-rstrip :
    (p l t : Str) → IsDense p → starts_with l p ≡ true → starts_with (rstrip l ++ t) p ≡ true
starts_with-rstrip p l t h s =
    let (r, e) = starts_with→append l p s in
    rw (e, rstrip-append_IsDense p r h, append_assoc) (starts_with-append p (rstrip r ++ t))

pub is_require-amend : (d l : Str) → is_require l ≡ true → is_require (amend d l) ≡ true
unfolding is_require amend lit is_space
is_require-amend d l h = starts_with-rstrip (lit "REQUIRE_DISTRO") l _ (ground arith) h

-- A line is not both.
pub is_require-is_label : (l : Str) → is_require l ≡ true → is_label l ≡ false
unfolding is_require is_label starts_with lit
is_require-is_label [] h = cc
is_require-is_label (c ∷ l) h = ground arith

-- A line with one colon behind which the name stands, or not.
pub check_contains-cases :
    (d l : Str) {b : Bool}
    → check_contains l d ≡ ok b
    → (label : Str) × (ds : Str) × (split_on b':' l ≡ label ∷ ds ∷ []) × (mem d (words ds) ≡ b)
unfolding check_contains
check_contains-cases d l {b} h = go (split_on b':' l) refl
  where
    go :
        (parts : List Str)
        → split_on b':' l ≡ parts
        → (label : Str) × (ds : Str) × (split_on b':' l ≡ label ∷ ds ∷ []) × (mem d (words ds) ≡ b)
    go [] e = ground arith
    go (x ∷ []) e = ground arith
    go (x ∷ y ∷ []) e = (x, y, e, ground arith)
    go (x ∷ y ∷ z ∷ r) e = ground arith

-- An amended line lists the name.
pub check_contains-amend :
    (d l : Str) → IsName d → check_contains l d ≡ ok false → check_contains (amend d l) d ≡ ok true
unfolding check_contains
check_contains-amend d l n h =
    let (label, ds, e, absent) = check_contains-cases d l h in
    let (ds', e', w) = words-amend d l label ds n e in
    ground (arith, e', ap (mem d) w, mem_last d (words ds))
