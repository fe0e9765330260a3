-- ===== src/Questions/Newlines.antt =====
-- Writing the lines of a file and reading them again.
use meta_security.Prelude.{
  ℕ, ◌≡◌, ◌≢◌, ◌⊎◌, refl, ap, ◌∙◌, Bool, true, false, List, [], ◌∷◌, ◌++◌, append-nil, append_assoc,
  Bool-cases, ◌&&◌, All-append_right, arith, inl, inr, ◌==◌, if◌then◌else◌, All, All-append,
  All-append_left,
}
use native.Mathlib.Decide.{ℕ_discrete}
use meta_security.Text.{Str, cons_head, is_space, rstrip}
use meta_security.Text.Pieces.{Lacks}
use meta_security.Text.Words.{IsDense, rstrip-append, rstrip-append_IsBlank}
use meta_security.Questions.Lines.{amend}
use meta_security.Questions.Files.{newlines_from, split_lines, read_lines, concat}

-- Splitting loses nothing.
pub concat-split_lines : (s : Str) → concat (split_lines s) ≡ s
unfolding concat split_lines
concat-split_lines [] = refl
concat-split_lines (c ∷ s) = go (split_lines s) (concat-split_lines s)
  where
    go :
        (ls : List Str)
        → concat ls ≡ s
        → concat (if c == 10 then (10 ∷ []) ∷ ls else cons_head c ls) ≡ c ∷ s
    go [] e = ground arith
    go (l ∷ ls) e = ground arith

-- A line with its end, and a last line without.
abbrev pub IsEnded : Str → Type 0
IsEnded l = (b : Str) × (l ≡ b ++ (10 ∷ [])) × Lacks 10 b

abbrev pub IsOpen : Str → Type 0
IsOpen l = (l ≢ []) × Lacks 10 l

abbrev pub IsLines : List Str → Type 0
IsLines [] = Unit
IsLines (l ∷ ls) = (IsEnded l ⊎ (IsOpen l × (ls ≡ []))) × IsLines ls

cons_head-IsLines : (c : ℕ) (ls : List Str) → c ≢ 10 → IsLines ls → IsLines (cons_head c ls)
cons_head-IsLines c [] n h = (inr ((ground arith, (n, tt)), refl), tt)
cons_head-IsLines c (l ∷ ls) n (inl (b, e, lacks), h) =
    (inl (c ∷ b, ap (λ (r : Str). c ∷ r) e, (n, lacks)), h)
cons_head-IsLines c (l ∷ ls) n (inr ((ne, lacks), e), h) = (inr ((ground arith, (n, lacks)), e), h)

split_lines_other : (c : ℕ) (s : Str) → c ≢ 10 → split_lines (c ∷ s) ≡ cons_head c (split_lines s)
unfolding split_lines
split_lines_other c s n = ground arith

pub split_lines-IsLines : (s : Str) → IsLines (split_lines s)
unfolding split_lines
split_lines-IsLines [] = tt
split_lines-IsLines (c ∷ s) = elim (ℕ_discrete c 10) [
  | yes y ↦ rw y (inl ([], refl, tt), split_lines-IsLines s)
  | no n ↦
      rw (split_lines_other c s n) (cons_head-IsLines c (split_lines s) n (split_lines-IsLines s))
]

split_lines-ended :
    (b s : Str) → Lacks 10 b → split_lines (b ++ (10 ∷ s)) ≡ (b ++ (10 ∷ [])) ∷ split_lines s
unfolding split_lines
split_lines-ended [] s h = refl
split_lines-ended (c ∷ b) s h = ground (arith, split_lines-ended b s h.1)

split_lines-open : (b : Str) → b ≢ [] → Lacks 10 b → split_lines b ≡ b ∷ []
unfolding split_lines
split_lines-open [] n h = absurd (n refl)
split_lines-open (c ∷ []) n h = ground arith
split_lines-open (c ∷ d ∷ b) n h = ground (arith, split_lines-open (d ∷ b) (cc) h.1)

-- Reading gives the lines that were written.
pub split_lines-concat : (ls : List Str) → IsLines ls → split_lines (concat ls) ≡ ls
unfolding concat split_lines
split_lines-concat [] h = refl
split_lines-concat (l ∷ ls) (inl (b, e, lacks), h) =
    rw (e, append_assoc)
      (split_lines-ended b (concat ls) lacks
        ∙ ap (λ (r : List Str). (b ++ (10 ∷ [])) ∷ r) (split_lines-concat ls h))
split_lines-concat (l ∷ ls) (inr ((ne, lacks), e), h) =
    rw (e, append-nil) (split_lines-open l ne lacks)

newlines_from-Lacks : (cr : Bool) (s : Str) → Lacks 13 (newlines_from cr s)
unfolding newlines_from
newlines_from-Lacks cr [] = tt
newlines_from-Lacks cr (c ∷ s) =
    go (newlines_from true s) (newlines_from false s) (newlines_from-Lacks true s)
      (newlines_from-Lacks false s)
  where
    go :
        (behind rest : Str)
        → Lacks 13 behind
        → Lacks 13 rest
        → Lacks 13 (if c == 13 then 10 ∷ behind else if c == 10 && cr then rest else c ∷ rest)
    go behind rest h h' = elim (Bool-cases (c == 13)) [
      | inl y ↦ rw y (omega arith, h)
      | inr n ↦ elim (Bool-cases (c == 10 && cr)) [
        | inl y ↦ rw (n, y) h'
        | inr n' ↦ rw (n, n') (ground arith, h')
      ]
    ]

newlines_from_id : (s : Str) → Lacks 13 s → newlines_from false s ≡ s
unfolding newlines_from
newlines_from_id [] h = refl
newlines_from_id (c ∷ s) h = ground (arith, newlines_from_id s h.1)

-- No line of a file has a carriage return.
abbrev pub ArePlain : List Str → Type 0
ArePlain = All (Lacks 13)

All-concat : (ls : List Str) → ArePlain ls → Lacks 13 (concat ls)
unfolding concat
All-concat [] h = tt
All-concat (l ∷ ls) h = All-append (λ (c : ℕ). c ≢ 13) l (concat ls) h.0 (All-concat ls h.1)

concat-ArePlain : (ls : List Str) → Lacks 13 (concat ls) → ArePlain ls
unfolding concat
concat-ArePlain [] h = tt
concat-ArePlain (l ∷ ls) h = (
  All-append_left (λ (c : ℕ). c ≢ 13) l (concat ls) h,
  concat-ArePlain ls (All-append_right (λ (c : ℕ). c ≢ 13) l (concat ls) h),
)

-- Lines as a file has them: each but the last ends in its only newline, and none has a carriage
-- return.
abbrev pub AreFile : List Str → Type 0
AreFile ls = IsLines ls × ArePlain ls

pub read_lines-AreFile : (s : Str) → AreFile (read_lines s)
unfolding read_lines
read_lines-AreFile s =
    let t = newlines_from false s in
    (
      split_lines-IsLines t,
      concat-ArePlain (split_lines t) (rw (concat-split_lines t) (newlines_from-Lacks false s)),
    )

-- Writing lines and reading them back gives the same lines: each ends with its newline, only the last
-- one may be open, and no line holds a carriage return.
pub read_lines-concat : (ls : List Str) → AreFile ls → read_lines (concat ls) ≡ ls
unfolding read_lines
read_lines-concat ls h =
    rw (newlines_from_id (concat ls) (All-concat ls h.1)) (split_lines-concat ls h.0)

IsDense-Lacks : (c : ℕ) (s : Str) → is_space c ≡ true → IsDense s → Lacks c s
IsDense-Lacks c [] y h = tt
IsDense-Lacks c (d ∷ s) y h = ((λ e. cc (ap is_space e)), IsDense-Lacks c s y h.1)

rstrip-Lacks : (c : ℕ) (s : Str) → Lacks c s → Lacks c (rstrip s)
rstrip-Lacks c s h =
    let (t, e, b) = rstrip-append s in All-append_left (λ (d : ℕ). d ≢ c) (rstrip s) t (rw e h)

-- An amended line is a line again.
pub amend-IsEnded :
    (d l : Str) (ls : List Str)
    → IsDense d
    → IsEnded l ⊎ (IsOpen l × (ls ≡ []))
    → IsEnded (amend d l)
unfolding amend is_space
amend-IsEnded d l ls n (inl (b, e, lacks)) = (
  rstrip b ++ (32 ∷ d),
  rw (e, rstrip-append_IsBlank b (10 ∷ []) (refl, tt), append_assoc),
  All-append (λ (c : ℕ). c ≢ 10) (rstrip b) (32 ∷ d) (rstrip-Lacks 10 b lacks)
      (omega arith, IsDense-Lacks 10 d refl n),
)
amend-IsEnded d l ls n (inr ((ne, lacks), _)) = (
  rstrip l ++ (32 ∷ d),
  rw append_assoc,
  All-append (λ (c : ℕ). c ≢ 10) (rstrip l) (32 ∷ d) (rstrip-Lacks 10 l lacks)
      (omega arith, IsDense-Lacks 10 d refl n),
)

pub amend-Lacks : (d l : Str) → IsDense d → Lacks 13 l → Lacks 13 (amend d l)
unfolding amend is_space
amend-Lacks d l n h =
    All-append (λ (c : ℕ). c ≢ 13) (rstrip l) _ (rstrip-Lacks 13 l h)
      (
        omega arith,
        All-append (λ (c : ℕ). c ≢ 13) d (10 ∷ []) (IsDense-Lacks 13 d refl n) (omega arith, tt),
      )
