-- ===== src/Smack/RoundTrip.antt =====
-- When the label tests of `SmackBasicTest` accept what chsmack prints.
use meta_security.Prelude.{
  ◌≡◌, ◌↔◌, refl, ap, sym, ◌∙◌, true, false, ℕ, [], ◌∷◌, ◌++◌, some, ok, arith,
}
use meta_security.Text.{Str, lit, str_eq, is_infix}
use meta_security.Text.Equality.{str_eq→eq, str_eq_refl}
use meta_security.Oeqa.{run, Target, History}
use meta_security.Smack.Labels.{
  is_quoted, LabelTest, attr, drop_last, has_label, second_piece, check_label, add_label,
}
use meta_security.Smack.Pieces.{
  is_first, is_solid, has_char, is_quoted-label, has_label-append, second_piece-append,
  up_to-is_infix, drop_last-append, has_char-drop_last,
}

-- A line that shows the attribute of the test with this value: the text before it, the first
-- character of the value, the others, and the text behind its closing quote.
abbrev pub line : LabelTest → Str → ℕ → Str → Str → Str
line l pre c w post = pre ++ (attr l ++ ((c ∷ w) ++ (b'"' ∷ post)))

-- The attribute is shown once, its value has no white space, and the expected label has no quote.
pub record IsShownOnce (l : LabelTest) (pre : Str) (c : ℕ) (w post : Str) : Type 0 where
  pub first : is_first (attr l) pre ≡ true
  pub last : is_infix (attr l) ((c ∷ w) ++ (b'"' ∷ post)) ≡ false
  pub solid : is_solid (c ∷ w) ≡ true
  pub unquoted : has_char b'"' l.expected ≡ false

attr-cons : (a : Str) → (d : ℕ) × (p : Str) × (a ++ lit "=\"" ≡ d ∷ p)
unfolding lit
attr-cons [] = (b'=', b'"' ∷ [], refl)
attr-cons (d ∷ a) = (d, a ++ lit "=\"", refl)

-- What the test compares with the label: a text ends at the last character of the line, so the value
-- is followed by its quote and all but one character of the rest.
piece-post :
    (e : Str) (c : ℕ) (w post : Str)
    → has_char b'"' e ≡ false
    → (str_eq e (drop_last ((c ∷ w) ++ (b'"' ∷ post))) ≡ true) ↔ ((c ∷ w ≡ e) × (post ≡ []))
piece-post e c w [] u = (
  (λ k. (
    sym (str_eq→eq e (drop_last ((c ∷ w) ++ (b'"' ∷ []))) k ∙ drop_last-append (c ∷ w) b'"'),
    refl,
  )),
  (λ (k, z). rw (drop_last-append (c ∷ w) b'"', k) (str_eq_refl e)),
)
piece-post e c w (x ∷ post) u = (
  (λ k. ground (
    arith,
    has_char-drop_last (c ∷ w) b'"' x post,
    u,
    str_eq→eq e (drop_last ((c ∷ w) ++ (b'"' ∷ x ∷ post))) k,
  )),
  (λ (k, z). cc),
)

check_label-pieces :
    (l : LabelTest) (output piece : Str) (t : Target) (h : History)
    → has_label (attr l) output ≡ true
    → second_piece (attr l) output ≡ some piece
    → ((check_label l output t h).0 ≡ ok tt) ↔ (str_eq l.expected (drop_last piece) ≡ true)
unfolding check_label
check_label-pieces l output piece t h a b = ground (arith, a, b)

found_at :
    (d : ℕ) (p pre r : Str)
    → is_first (d ∷ p) pre ≡ true
    → is_quoted false r ≡ true
    → is_infix (d ∷ p) r ≡ false
    → (has_label (d ∷ p) (pre ++ (d ∷ p ++ r)) ≡ true)
      × (second_piece (d ∷ p) (pre ++ (d ∷ p ++ r)) ≡ some r)
found_at d p pre r f q n = (
  has_label-append d p pre r q,
  second_piece-append d p pre r f ∙ ap some (up_to-is_infix (d ∷ p) r n),
)

-- The search and the split agree on where the value of such a line begins.
found :
    (l : LabelTest) (pre r : Str)
    → is_first (attr l) pre ≡ true
    → is_quoted false r ≡ true
    → is_infix (attr l) r ≡ false
    → (has_label (attr l) (pre ++ (attr l ++ r)) ≡ true)
      × (second_piece (attr l) (pre ++ (attr l ++ r)) ≡ some r)
found l pre r = let (d, p, e) = attr-cons l.attribute in rw e (found_at d p pre r)

pub check_label-line :
    (l : LabelTest) (pre : Str) (c : ℕ) (w post : Str) (t : Target) (h : History)
    → IsShownOnce l pre c w post
    → ((check_label l (line l pre c w post) t h).0 ≡ ok tt) ↔ ((c ∷ w ≡ l.expected) × (post ≡ []))
check_label-line l pre c w post t h s =
    let r = (c ∷ w) ++ (b'"' ∷ post) in
    let (a, b) = found l pre r s.first (is_quoted-label c w post s.solid) s.last in
    let read = check_label-pieces l (line l pre c w post) r t h a b in
    let compared = piece-post l.expected c w post s.unquoted in
    ((λ y. compared.0 (read.0 y)), (λ y. read.1 (compared.1 y)))

-- The history in which a label test asks chsmack.
abbrev pub labelled : LabelTest → History → History
labelled l h = h ++ (run (l.create ++ l.path) ∷ []) ++ (run (l.label ++ l.path) ∷ [])

-- The file can be labelled.
abbrev pub IsLabelled : LabelTest → Target → History → Type 0
IsLabelled l t h = (t (h ++ (run (l.create ++ l.path) ∷ [])) (run (l.label ++ l.path))).status ≡ 0

-- When the file can be labelled and chsmack shows the attribute of the test once, with some value
-- without white space, the test passes exactly if the value is the expected label and the line ends
-- at the quote behind it.
pub add_label-line :
    (l : LabelTest) (pre : Str) (c : ℕ) (w post : Str) (t : Target) (h : History)
    → IsLabelled l t h
    → (t (labelled l h) (run (lit "chsmack " ++ l.path))).output ≡ line l pre c w post
    → IsShownOnce l pre c w post
    → ((add_label l t h).0 ≡ ok tt) ↔ ((c ∷ w ≡ l.expected) × (post ≡ []))
unfolding add_label
add_label-line l pre c w post t h a q s =
    let h' =
      labelled l h ++ (run (lit "chsmack " ++ l.path) ∷ []) ++ (run (l.clean ++ l.path) ∷ []) in
    ground (arith, a, q, check_label-line l pre c w post t h' s)
