-- ===== src/Tpm/Endlines.antt =====
-- `check_endlines` of meta-tpm/lib/oeqa/runtime/cases/tpm2.py.
use meta_security.Prelude.{
  ℕ, ◌+◌, ◌-◌, ◌≤◌, ◌≡◌, ◌↔◌, refl, ap, ◌∙◌, Bool, true, false, ◌&&◌, ◌||◌, List, [], ◌∷◌, ◌++◌,
  arith, ok, ◌==◌, leb, if◌then◌else◌,
}
use meta_security.Text.{Str, lit, str_eq, cons_head, join}
use meta_security.Text.Equality.{str_eq_refl, str_eq→eq}
use meta_security.Oeqa.{Message, text, History, Target, M, fail, pure}

-- The characters that end a line for `str.splitlines`.
abbrev ends_line : ℕ → Bool
ends_line c =
    leb 10 c && leb c 13 || leb 28 c && leb c 30 || c == 0x85 || c == 0x2028 || c == 0x2029

-- `s.splitlines()`, behind a `"\r"` if the flag is set: the `"\n"` behind that ends no other line.
split_lines_from : Bool → Str → List Str
split_lines_from cr [] = []
split_lines_from cr (c ∷ s) =
    let behind = split_lines_from true s in
    let rest = split_lines_from false s in
    if c == 10 && cr
    then rest
    else if c == 13
    then [] ∷ behind
    else if ends_line c
    then [] ∷ rest
    else cons_head c rest

unfoldable pub split_lines : Str → List Str
unfolding split_lines_from
split_lines s = split_lines_from false s

-- The inner loop: the first expected line that equals this one is removed.
unfoldable pub remove_line : Str → List Str → List Str
remove_line line [] = []
remove_line line (el ∷ els) = if str_eq line el then els else el ∷ remove_line line els

-- The outer loop: what is still expected behind the lines.
unfoldable pub remove_lines : List Str → List Str → List Str
unfolding remove_line
remove_lines [] expected = expected
remove_lines (line ∷ lines) expected = remove_lines lines (remove_line line expected)

abbrev pub missing : List Str → Message
missing els = text (lit "Missing expected line endings:\n  " ++ join (lit "\n  ") els)

abbrev pub fail_missing : List Str → M (Unit {0})
fail_missing [] = pure tt
fail_missing (el ∷ els) = fail (missing (el ∷ els))

unfoldable pub check_endlines : Str → List Str → M (Unit {0})
unfolding remove_lines split_lines
check_endlines results expected = fail_missing (remove_lines (split_lines results) expected)

-- How often a line is listed.
pub count : Str → List Str → ℕ
count x [] = 0
count x (y ∷ ys) = (if str_eq x y then 1 else 0) + count x ys

count-remove_line :
    (x line : Str) (els : List Str)
    → count x (remove_line line els) ≡ count x els - (if str_eq x line then 1 else 0)
unfolding count remove_line
count-remove_line x line [] = ground arith
count-remove_line x line (el ∷ els) = ground (
  arith,
  count-remove_line x line els,
  λ (e : str_eq line el ≡ true). str_eq→eq line el e,
  λ (e : str_eq x line ≡ true). str_eq→eq x line e,
  λ (e : str_eq x el ≡ true). str_eq→eq x el e,
  str_eq_refl x,
  str_eq_refl line,
  str_eq_refl el,
)

count-remove_lines :
    (x : Str) (lines els : List Str)
    → count x (remove_lines lines els) ≡ count x els - count x lines
unfolding count remove_lines
count-remove_lines x [] els = omega arith
count-remove_lines x (line ∷ lines) els =
    omega (arith, count-remove_lines x lines (remove_line line els), count-remove_line x line els)

count-nil : (els : List Str) → ((x : Str) → count x els ≡ 0) → els ≡ []
unfolding count
count-nil [] h = refl
count-nil (el ∷ els) h = ground (arith, h el, str_eq_refl el)

count-nothing : (x : Str) → count x [] ≡ 0
unfolding count
count-nothing x = refl

fail_missing_iff :
    (els : List Str) (t : Target) (h : History) → ((fail_missing els t h).0 ≡ ok tt) ↔ (els ≡ [])
fail_missing_iff [] t h = (λ _. refl, λ _. refl)
fail_missing_iff (el ∷ els) t h = (λ e. cc, λ e. cc)

fail_missing_actions : (els : List Str) (t : Target) (h : History) → (fail_missing els t h).1 ≡ h
fail_missing_actions [] t h = refl
fail_missing_actions (el ∷ els) t h = refl

pub check_endlines_actions :
    (results : Str) (expected : List Str) (t : Target) (h : History)
    → (check_endlines results expected t h).1 ≡ h
unfolding check_endlines
check_endlines_actions results expected t h =
    fail_missing_actions (remove_lines (split_lines results) expected) t h

none_missing :
    (x : Str) (lines els : List Str) → remove_lines lines els ≡ [] → count x els ≤ count x lines
none_missing x lines els e =
    let n : count x (remove_lines lines els) ≡ 0 = ap (count x) e ∙ count-nothing x in
    omega (arith, count-remove_lines x lines els, n)

-- The check passes exactly when each line occurs in the output at least as often as it is
-- expected.
pub check_endlines_lem :
    (results : Str) (expected : List Str) (t : Target) (h : History)
    → ((check_endlines results expected t h).0 ≡ ok tt)
      ↔ ((x : Str) → count x expected ≤ count x (split_lines results))
unfolding check_endlines
check_endlines_lem results expected t h =
    let lines = split_lines results in
    let iff = fail_missing_iff (remove_lines lines expected) t h in
    (
      λ e x. none_missing x lines expected (iff.0 e),
      λ le. iff.1 (
          count-nil (remove_lines lines expected)
            (λ x. omega (arith, count-remove_lines x lines expected, le x))),
    )
