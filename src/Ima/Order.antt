-- ===== src/Ima/Order.antt =====
-- `test_ima_before_systemd`: the line numbers decide.
use meta_security.Prelude.{ℕ, ◌≤◌, ◌≡◌, ◌≢◌, ◌↔◌, ap, ◌∙◌, [], ◌∷◌, ◌++◌, arith, ok, err, inr}
use meta_security.Text.{Str}
use meta_security.Text.Pieces.{split_on-append}
use meta_security.Text.Numbers.{pos, gt, decimal, int-decimal, decimal-Lacks}
use meta_security.Oeqa.{failure, History, Target}
use meta_security.Ima.Defs.{
  dmesg, ima_search, systemd_search, line_number, test_ima_before_systemd, not_found,
}

-- A line of `grep -n` is read as its number.
pub line_number-decimal :
    (n : ℕ) (rest : Str) → line_number (decimal n ++ (b':' ∷ rest)) ≡ ok (pos n)
unfolding line_number
line_number-decimal n rest = ground (
  arith,
  split_on-append b':' (decimal n) rest (decimal-Lacks n b':' (inr (omega arith))),
  int-decimal n,
)

-- With the replies of the two commands as `grep -n` gives them, the test passes exactly when both
-- were found and the first line of IMA does not stand behind the first line of systemd.
pub test_ima_before_systemd_lem :
    (t : Target) (h : History) (a b : ℕ) (x y : Str)
    → let first = t h (dmesg ima_search) in
      let second = t (h ++ (dmesg ima_search ∷ [])) (dmesg systemd_search) in
      first.output ≡ decimal a ++ (b':' ∷ x)
      → second.output ≡ decimal b ++ (b':' ∷ y)
      → ((test_ima_before_systemd t h).0 ≡ ok tt)
        ↔ ((first.status ≡ 0) × (second.status ≡ 0) × (a ≤ b))
unfolding test_ima_before_systemd gt
test_ima_before_systemd_lem t h a b x y e f =
    let i = ap line_number e ∙ line_number-decimal a x in
    let j = ap line_number f ∙ line_number-decimal b y in ground (arith, i, j)

-- Without a line for IMA the test fails before it asks for systemd.
pub test_ima_before_systemd_missing :
    (t : Target) (h : History)
    → (t h (dmesg ima_search)).status ≢ 0
    → test_ima_before_systemd t h
      ≡ (err (failure (not_found ima_search)), h ++ (dmesg ima_search ∷ []))
unfolding test_ima_before_systemd
test_ima_before_systemd_missing t h n = ground arith
