-- ===== src/Smack/Settings.antt =====
-- The two tests of `SmackBasicTest` that change a setting of the kernel, and set it back.
use meta_security.Prelude.{◌≡◌, ◌↔◌, ap, [], ◌∷◌, ◌++◌, arith, ok}
use meta_security.Text.{Str, lit, str_eq, strip}
use meta_security.Text.Equality.{str_eq_refl, str_eq→eq}
use meta_security.Oeqa.{Target, History, M}
use meta_security.Smack.Defs.{SmackClass, read_from, write_line, test_smack_direct}
use meta_security.Smack.Labels.{printable, test_smack_ambient}

pub data Setting : Type 0 where
  direct ambient : Setting

abbrev pub rule_file : Setting → Str
rule_file direct = lit "/direct"
rule_file ambient = lit "/ambient"

-- The value that the test writes.
abbrev pub value : Setting → Str
value direct = lit "17"
value ambient = lit "test_ambient"

-- What the test keeps of a text that it has read.
abbrev pub kept : Setting → Str → Str
kept direct s = s
kept ambient s = printable s

abbrev pub test_of_setting : Setting → SmackClass → M (Unit {0})
test_of_setting direct = test_smack_direct
test_of_setting ambient = test_smack_ambient

-- The histories behind the first reading and behind the new value.
module _ (x : Setting) (c : SmackClass) (h : History) where
  abbrev pub read_once : History
  read_once = h ++ (read_from c (rule_file x) ∷ [])

  abbrev pub overwritten : History
  overwritten = read_once ++ (write_line c (value x) (rule_file x) ∷ [])

-- Once the new value is written, either test ends with writing back what it has kept of the first
-- value, whatever the second reading gives, and passes exactly when what it keeps of that reading is
-- the new value, but for white space at its ends.
pub test_of_setting_restores :
    (x : Setting) (c : SmackClass) (t : Target) (h : History)
    → (t (read_once x c h) (write_line c (value x) (rule_file x))).status ≡ 0
    → let initial = (t h (read_from c (rule_file x))).output in
      let new = (t (overwritten x c h) (read_from c (rule_file x))).output in
      ((test_of_setting x c t h).1
        ≡ overwritten x c h
          ++ (read_from c (rule_file x) ∷ [])
          ++ (write_line c (kept x initial) (rule_file x) ∷ []))
      × (((test_of_setting x c t h).0 ≡ ok tt) ↔ (strip (kept x new) ≡ value x))
unfolding test_smack_direct test_smack_ambient
test_of_setting_restores direct c t h s =
    let new = strip (t (overwritten direct c h) (read_from c (rule_file direct))).output in
    (
      ground (arith, s),
      ground (
        arith,
        s,
        str_eq→eq (value direct) new,
        str_eq_refl (value direct),
        ap (str_eq (value direct)),
      ),
    )
test_of_setting_restores ambient c t h s =
    let new =
      strip (printable (t (overwritten ambient c h) (read_from c (rule_file ambient))).output) in
    (
      ground (arith, s),
      ground (
        arith,
        s,
        str_eq→eq (value ambient) new,
        str_eq_refl (value ambient),
        ap (str_eq (value ambient)),
      ),
    )
