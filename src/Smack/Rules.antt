-- ===== src/Smack/Rules.antt =====
-- What the tests of `SmackBasicTest` establish and leave behind.
use meta_security.Prelude.{◌≡◌, ◌↔◌, ap, true, [], ◌∷◌, ◌++◌, arith, ok, Result-cases, inl, inr}
use meta_security.Text.{Str, lit, is_infix}
use meta_security.Oeqa.{Action, run, Target, History, M, ◌>>◌}
use meta_security.Smack.Defs.{
  SmackClass, set_up_class, notroot, smack_label, test_privileged_change_self_label,
  test_unprivileged_change_self_label, write_to, cipso_rule, test_smack_cipso,
}

abbrev pub show_cipso : SmackClass → Str → Action
show_cipso c letter =
    run (lit "cat " ++ (c.smack_path ++ (lit "/cipso | grep '^TheOne" ++ (letter ++ lit "'"))))

abbrev pub ruled : SmackClass → Str → Str → History → History
ruled c rule letter h = h ++ (write_to c rule (lit "/cipso") ∷ []) ++ (show_cipso c letter ∷ [])

-- The rule can be written, and the kernel shows it.
abbrev pub IsShown : Target → SmackClass → Str → Str → Str → History → Type 0
IsShown t c rule letter shown h =
    ((t h (write_to c rule (lit "/cipso"))).status ≡ 0)
    × ((t (h ++ (write_to c rule (lit "/cipso") ∷ [])) (show_cipso c letter)).status ≡ 0)
    × (is_infix shown (t (h ++ (write_to c rule (lit "/cipso") ∷ [])) (show_cipso c letter)).output
        ≡ true)

module _ (t : Target) (c : SmackClass) (rule letter shown : Str) (h : History) where
  cipso_rule-IsShown :
      IsShown t c rule letter shown h
      → cipso_rule c rule letter shown t h ≡ (ok tt, ruled c rule letter h)
  unfolding cipso_rule
  cipso_rule-IsShown (a, b, d) = ground (arith, a, b, d)

  IsShown-cipso_rule :
      (cipso_rule c rule letter shown t h).0 ≡ ok tt → IsShown t c rule letter shown h
  unfolding cipso_rule
  IsShown-cipso_rule e = ground arith

abbrev pub rule_a : Str
rule_a = lit "TheOneA                 2   0   "

abbrev pub rule_b : Str
rule_b = lit "TheOneB                 3   1   55  "

abbrev pub rule_c : Str
rule_c = lit "TheOneC                 4   2   17  33  "

abbrev result : {A B : Type 0} → A × B → A
result r = r.0

-- One rule and what follows it.
rule_first :
    (t : Target) (c : SmackClass) (rule letter shown : Str) (rest : M (Unit {0})) (h : History)
    → (((cipso_rule c rule letter shown >> rest) t h).0 ≡ ok tt)
      ↔ (IsShown t c rule letter shown h × ((rest t (ruled c rule letter h)).0 ≡ ok tt))
rule_first t c rule letter shown rest h =
    elim (Result-cases (cipso_rule c rule letter shown t h).0) [
      | inl (u, e) ↦
          let k = IsShown-cipso_rule t c rule letter shown h e in
          let f = cipso_rule-IsShown t c rule letter shown h k in
          (λ q. (k, ground (arith, f)), λ (_, q). ground (arith, f))
      | inr (x, e) ↦ (
        λ q. ground (arith, e),
        λ (k, q). cc (e, ap result (cipso_rule-IsShown t c rule letter shown h k)),
      )
    ]

-- `test_smack_cipso` passes exactly when its three rules are written and shown by the kernel, one
-- after the other.
pub test_smack_cipso-IsShown :
    (c : SmackClass) (t : Target) (h : History)
    → ((test_smack_cipso c t h).0 ≡ ok tt) ↔ (
        IsShown t c rule_a (lit "A") (lit " 2") h
        × IsShown t c rule_b (lit "B") (lit "/55") (ruled c rule_a (lit "A") h)
        × IsShown t c rule_c
            (lit "C")
            (lit "/17,33")
            (ruled c rule_b (lit "B") (ruled c rule_a (lit "A") h)))
unfolding test_smack_cipso
test_smack_cipso-IsShown c t h =
    let h₁ = ruled c rule_a (lit "A") h in
    let h₂ = ruled c rule_b (lit "B") h₁ in
    let last = cipso_rule c rule_c (lit "C") (lit "/17,33") in
    let (f, g) =
      rule_first t c rule_a (lit "A") (lit " 2") (cipso_rule c rule_b (lit "B") (lit "/55") >> last)
        h in
    let (f', g') = rule_first t c rule_b (lit "B") (lit "/55") last h₁ in
    (
      λ e. (
        (f e).0,
        (f' (f e).1).0,
        IsShown-cipso_rule t c rule_c (lit "C") (lit "/17,33") h₂ (f' (f e).1).1,
      ),
      λ (a, b, d).
          g (a, g' (b, ap result (cipso_rule-IsShown t c rule_c (lit "C") (lit "/17,33") h₂ d))),
    )

-- With the class as `setUpClass` leaves it, the two tests of a process that changes its own label
-- send one command, which calls notroot.py with an empty label.
pub set_up_class_unlabelled :
    (c : SmackClass) (t : Target) (h₀ h : History)
    → (set_up_class t h₀).0 ≡ ok c
    → ((test_privileged_change_self_label c t h).1
        ≡ h
          ++ (run (
                notroot 0 [] (
                  lit
                    "/bin/sh -c 'echo PRIVILEGED >/proc/self/attr/current'; cat /proc/self/attr/current"))
              ∷ []))
      × ((test_unprivileged_change_self_label c t h).1
          ≡ h
            ++ (run (
                  notroot 1000 []
                    (lit "/bin/sh -c 'echo " ++ (smack_label ++ lit " >/proc/self/attr/current'"))
                  ++ lit " 2>&1 | grep 'Operation not permitted'")
                ∷ []))
unfolding set_up_class test_privileged_change_self_label test_unprivileged_change_self_label
set_up_class_unlabelled c t h₀ h e = (ground (arith, e), ground (arith, e))
