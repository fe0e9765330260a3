-- ===== src/Smack/Fields.antt =====
-- How `test_load_smack_rule` reads the mode of a rule out of a line of the kernel.
use meta_security.Prelude.{
  append-nil, ◌≡◌, ◌≢◌, ◌↔◌, refl, ap, sym, ◌∙◌, ℕ, zero, suc, List, [], ◌∷◌, ◌++◌, ok, arith,
}
use meta_security.Text.{Str, lit, str_eq, strip, lstrip, rstrip, is_space, split_on}
use meta_security.Text.Equality.{str_eq→eq, str_eq_refl}
use meta_security.Text.Words.{IsDense, IsWord, rstrip-append_IsDense}
use meta_security.Text.Pieces.{Lacks, split_on-Lacks, split_on-append}
use meta_security.Oeqa.{Target, History}
use meta_security.Smack.Defs.{SmackClass}
use meta_security.Smack.Labels.{without_empty, mode_of, load, show_load, test_load_smack_rule}

-- A line of three words, with more spaces between them than these.
unfoldable pub spaces : ℕ → Str
spaces zero = []
spaces (suc n) = 32 ∷ spaces n

unfoldable pub row : Str → ℕ → Str → ℕ → Str → Str
row x n y m z = x ++ (32 ∷ (spaces n ++ (y ++ (32 ∷ (spaces m ++ z)))))

IsDense-Lacks : (w : Str) → IsDense w → Lacks 32 w
unfolding is_space
IsDense-Lacks [] h = tt
IsDense-Lacks (c ∷ w) h = ((λ e. cc (h.0, ap is_space e)), IsDense-Lacks w h.1)

-- The pieces that are not empty.
abbrev fields : Str → List Str
fields s = without_empty (split_on 32 s)

fields-spaces : (n : ℕ) (s : Str) → fields (spaces n ++ s) ≡ fields s
unfolding spaces without_empty split_on
fields-spaces zero s = refl
fields-spaces (suc n) s = ground (arith, fields-spaces n s)

without_empty-cons :
    (w : Str) (ws : List Str) → w ≢ [] → without_empty (w ∷ ws) ≡ w ∷ without_empty ws
unfolding without_empty
without_empty-cons [] ws h = absurd (h refl)
without_empty-cons (c ∷ w) ws h = refl

fields-word : (w s : Str) (n : ℕ) → IsWord w → fields (w ++ (32 ∷ (spaces n ++ s))) ≡ w ∷ fields s
fields-word w s n h =
    ap without_empty (split_on-append 32 w (spaces n ++ s) (IsDense-Lacks w h.1))
    ∙ (without_empty-cons w (split_on 32 (spaces n ++ s)) h.0
        ∙ ap (λ (r : List Str). w ∷ r) (fields-spaces n s))

fields_last : (w : Str) → IsWord w → fields w ≡ w ∷ []
unfolding without_empty
fields_last w h =
    ap without_empty (split_on-Lacks 32 w (IsDense-Lacks w h.1)) ∙ without_empty-cons w [] h.0

fields-row :
    (x y z : Str) (n m : ℕ)
    → IsWord x
    → IsWord y
    → IsWord z
    → fields (row x n y m z) ≡ x ∷ y ∷ z ∷ []
unfolding row
fields-row x y z n m a b c =
    fields-word x (y ++ (32 ∷ (spaces m ++ z))) n a
    ∙ ap (λ (r : List Str). x ∷ r)
        (fields-word y z m b ∙ ap (λ (r : List Str). y ∷ r) (fields_last z c))

lstrip-IsDense : (w : Str) → IsDense w → lstrip w ≡ w
unfolding lstrip
lstrip-IsDense [] h = refl
lstrip-IsDense (c ∷ w) h = ground (arith, h.0)

strip-IsDense : (w : Str) → IsDense w → strip w ≡ w
unfolding strip rstrip
strip-IsDense w h =
    ap lstrip (ap rstrip (sym (append-nil w)) ∙ rstrip-append_IsDense w [] h ∙ append-nil w)
    ∙ lstrip-IsDense w h

mode_of-row :
    (x y z : Str) (n m : ℕ) → IsWord x → IsWord y → IsWord z → mode_of (row x n y m z) ≡ ok z
unfolding mode_of
mode_of-row x y z n m a b c =
    rw (mode_of, fields-row x y z n m a b c) (ap (λ (r : Str). ok r) (strip-IsDense z c.1))

-- The text is a line of three words, the last of which is the mode.
abbrev pub Shows : Str → Str → Type 0
Shows output z =
    (x : Str) × (n : ℕ) × (y : Str) × (m : ℕ) × (output ≡ row x n y m z)
    × IsWord x
    × IsWord y
    × IsWord z

mode_of-Shows : (output z : Str) → Shows output z → mode_of output ≡ ok z
mode_of-Shows output z (x, n, y, m, e, a, b, c) = ap mode_of e ∙ mode_of-row x y z n m a b c

-- The histories in which the rules are read back, and the replies.
module _ (c : SmackClass) (t : Target) (h : History) where
  abbrev pub rule_set : History
  rule_set = h ++ (load c (lit "TheOne                  TheOther                rwxat") ∷ [])

  abbrev pub rule_changed : History
  rule_changed =
      rule_set
      ++ (show_load c ∷ [])
      ++ (load c (lit "TheOne                  TheOther                r----") ∷ [])

-- Where the kernel shows each rule as three words with spaces between them, `test_load_smack_rule`
-- passes exactly when the first reading succeeds, its mode is rwxat, and the mode of the second
-- reading is r, whatever the status of that one.
pub test_load_smack_rule-Shows :
    (c : SmackClass) (t : Target) (h : History) (a b : Str)
    → Shows (t (rule_set c t h) (show_load c)).output a
    → Shows (t (rule_changed c t h) (show_load c)).output b
    → ((test_load_smack_rule c t h).0 ≡ ok tt)
      ↔ (((t (rule_set c t h) (show_load c)).status ≡ 0) × (a ≡ lit "rwxat") × (b ≡ lit "r"))
unfolding test_load_smack_rule
test_load_smack_rule-Shows c t h a b x y = (
  ground (
    arith,
    mode_of-Shows _ a x,
    mode_of-Shows _ b y,
    str_eq→eq a (lit "rwxat"),
    str_eq→eq b (lit "r"),
  ),
  ground (
    arith,
    mode_of-Shows _ a x,
    mode_of-Shows _ b y,
    str_eq_refl (lit "rwxat"),
    str_eq_refl (lit "r"),
    ap (str_eq a),
    ap (str_eq b),
  ),
)
