-- ===== src/Smack/Files.antt =====
-- What `test_smack_labels` asks for, and when it passes.
use meta_security.Prelude.{
  ◌≡◌, ◌↔◌, refl, ap, sym, subst, ◌∙◌, ℕ, true, List, [], ◌∷◌, ◌++◌, ok, arith,
}
use meta_security.Text.{Str, lit, strip, is_space, words, split_on, join}
use meta_security.Text.Equality.{str_eq→eq, str_eq_refl}
use meta_security.Text.Pieces.{split_on-cases}
use meta_security.Oeqa.{run, Action, Target, History}
use meta_security.Smack.Labels.{without_empty}
use meta_security.Smack.Table.{
  expected, files_of, status_command, strs_eq, lines_of, test_smack_labels,
}

join-cons_head :
    (c sep : ℕ) (w : Str) (ws : List Str)
    → join (sep ∷ []) ((c ∷ w) ∷ ws) ≡ c ∷ join (sep ∷ []) (w ∷ ws)
unfolding join
join-cons_head c sep w [] = refl
join-cons_head c sep w (v ∷ ws) = refl

join-cons_nil :
    (sep : ℕ) (w : Str) (ws : List Str)
    → join (sep ∷ []) ([] ∷ w ∷ ws) ≡ sep ∷ join (sep ∷ []) (w ∷ ws)
unfolding join
join-cons_nil sep w ws = refl

-- The pieces joined by the separator are the text again.
join-split_on : (sep : ℕ) (s : Str) → join (sep ∷ []) (split_on sep s) ≡ s
unfolding split_on join
join-split_on sep [] = refl
join-split_on sep (c ∷ s) =
    let (w, ws, e) = split_on-cases sep s in
    ground (arith, e, join-split_on sep s, join-cons_head c sep w ws, join-cons_nil sep w ws)

strs_eq→eq : (ss ts : List Str) → strs_eq ss ts ≡ true → ss ≡ ts
unfolding strs_eq
strs_eq→eq [] [] e = refl
strs_eq→eq [] (t ∷ ts) e = cc
strs_eq→eq (s ∷ ss) [] e = cc
strs_eq→eq (s ∷ ss) (t ∷ ts) e = ground (arith, str_eq→eq s t, strs_eq→eq ss ts, e)

strs_eq_refl : (ss : List Str) → strs_eq ss ss ≡ true
unfolding strs_eq
strs_eq_refl [] = refl
strs_eq_refl (s ∷ ss) = ground (arith, str_eq_refl s, strs_eq_refl ss)

-- The lines are equal exactly when the texts are, up to white space at their ends.
lines_of-strip : (s t : Str) → (strs_eq (lines_of s) (lines_of t) ≡ true) ↔ (strip s ≡ strip t)
lines_of-strip s t = (
  λ e.
      sym (join-split_on 10 (strip s))
      ∙ ap (join (10 ∷ [])) (strs_eq→eq (lines_of s) (lines_of t) e)
      ∙ join-split_on 10 (strip t),
  λ e. rw e (strs_eq_refl (lines_of t)),
)

-- The eight files of the table.
abbrev pub files : Str
files =
    lit "/tmp/ /etc/ /etc/passwd /etc/terminfo /etc/skel/ /etc/skel/.profile /var/log/ /var/tmp/"

abbrev pub ask : Action
ask = run (lit "chsmack " ++ files)

files_of-expected : files_of expected ≡ files
unfolding files_of without_empty split_on words is_space lit join
files_of-expected = refl

-- The test, for the files that it takes from the table.
abbrev AsksFor : Target → History → Str → Type 0
AsksFor t h fs =
    let asked = h ++ (run (status_command fs) ∷ []) in
    let r = t asked (run (lit "chsmack " ++ fs)) in
    ((test_smack_labels t h).1 ≡ asked ++ (run (lit "chsmack " ++ fs) ∷ []))
    × (((test_smack_labels t h).0 ≡ ok tt) ↔ ((r.status ≡ 0) × (strip r.output ≡ strip expected)))

labels-AsksFor : (t : Target) (h : History) → AsksFor t h (files_of expected)
unfolding test_smack_labels
labels-AsksFor t h =
    let r =
      t (h ++ (run (status_command (files_of expected)) ∷ []))
        (run (lit "chsmack " ++ files_of expected)) in
    let same = lines_of-strip r.output expected in
    (ground arith, (ground (arith, same.0), ground (arith, same.1)))

-- The test asks chsmack once, for the eight files of its table, behind the command for its message,
-- and passes exactly when chsmack succeeds and prints the table, but for white space at its ends.
pub test_smack_labels_lem :
    (t : Target) (h : History)
    → let asked = h ++ (run (status_command files) ∷ []) in
      ((test_smack_labels t h).1 ≡ asked ++ (ask ∷ []))
      × (((test_smack_labels t h).0 ≡ ok tt)
          ↔ (((t asked ask).status ≡ 0) × (strip (t asked ask).output ≡ strip expected)))
test_smack_labels_lem t h = subst (AsksFor t h) files_of-expected (labels-AsksFor t h)
