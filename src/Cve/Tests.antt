-- ===== src/Cve/Tests.antt =====
-- The theorem on the CVE checker selftest, at a build that keeps its classes.
use meta_security.Prelude.{
  ◌≡◌, ◌↔◌, refl, Bool, true, false, [], ◌∷◌, ◌++◌, Option, some, if◌then◌else◌, ok, ◌||◌,
  Bool-cases, inl, inr, arith,
}
use meta_security.Text.{Str, lit, str_eq, is_infix, starts_with}
use meta_security.Cve.Defs.{
  BuildAction, append_config, remove_config, bitbake, log_info, BuildHistory, Build, link_of,
  test_cve_checker, inherits_check, add_cve_check_config, manifest_config, image, logged,
}
use meta_security.Cve.Config.{KeepsClasses, Inherits, final_history, test_cve_checker-Inherits}

-- The build inherits the class once its line is appended, and has every file.
has_class : BuildHistory → Bool
has_class [] = false
has_class (append_config line ∷ h) = str_eq line add_cve_check_config || has_class h
has_class (log_info s ∷ h) = has_class h
has_class (remove_config line ∷ h) = has_class h
has_class (bitbake s ∷ h) = has_class h

abbrev inherit : Bool → Str
inherit true = lit "package_rpm cve-check"
inherit false = lit "package_rpm"

-- `INHERIT`, and one directory for the other variables
abbrev value : BuildHistory → Str → Str → Option Str
value h name target =
    if str_eq name (lit "INHERIT") then some (inherit (has_class h)) else some (lit "/deploy")

abbrev build : Build
build = record { get_bb_var = value; is_file = λ h path. true }

inherit-Inherits : (h : BuildHistory) → has_class h ≡ true → Inherits build h
unfolding inherits_check str_eq is_infix starts_with lit
inherit-Inherits h e = rw e refl

Inherits-inherit : (h : BuildHistory) → Inherits build h → has_class h ≡ true
unfolding inherits_check str_eq is_infix starts_with lit
Inherits-inherit h i = elim (Bool-cases (has_class h)) [ inl y ↦ y | inr n ↦ cc ]

has_class-append :
    (h : BuildHistory) (a : BuildAction)
    → has_class (a ∷ []) ≡ true
    → has_class (h ++ (a ∷ [])) ≡ true
unfolding has_class
has_class-append [] a e = e
has_class-append (append_config line ∷ h) a e = ground (arith, has_class-append h a e)
has_class-append (log_info s ∷ h) a e = has_class-append h a e
has_class-append (remove_config line ∷ h) a e = has_class-append h a e
has_class-append (bitbake s ∷ h) a e = has_class-append h a e

has_class-kept :
    (h : BuildHistory) (a : BuildAction) → has_class h ≡ true → has_class (h ++ (a ∷ [])) ≡ true
unfolding has_class
has_class-kept [] a e = cc
has_class-kept (append_config line ∷ h) a e = ground (arith, has_class-kept h a, e)
has_class-kept (log_info s ∷ h) a e = has_class-kept h a e
has_class-kept (remove_config line ∷ h) a e = has_class-kept h a e
has_class-kept (bitbake s ∷ h) a e = has_class-kept h a e

build-KeepsClasses : (link : Str) (h : BuildHistory) → KeepsClasses build link h
unfolding has_class str_eq lit
build-KeepsClasses link h = record {
  added =
      inherit-Inherits (h ++ (append_config add_cve_check_config ∷ []))
        (has_class-append h (append_config add_cve_check_config) refl);
  assigned = λ h' i.
      let a = append_config (manifest_config link) in
      inherit-Inherits (h' ++ (a ∷ [])) (has_class-kept h' a (Inherits-inherit h' i));
  baked = λ h' i.
      let a = bitbake (lit "-k -c cve_check " ++ image) in
      inherit-Inherits (h' ++ (a ∷ [])) (has_class-kept h' a (Inherits-inherit h' i));
}

test_cve_checker-Inherits_example :
    ((test_cve_checker build []).0 ≡ ok tt ↔ true ≡ true)
    × ((test_cve_checker build []).1
        ≡ final_history (link_of build [] (lit "/deploy")) (lit "package_rpm") [])
    × Inherits build (final_history (link_of build [] (lit "/deploy")) (lit "package_rpm") [])
unfolding has_class str_eq lit
test_cve_checker-Inherits_example =
    test_cve_checker-Inherits build [] (lit "/deploy") (lit "package_rpm") refl refl (
      build-KeepsClasses (link_of build [] (lit "/deploy"))
        (logged (link_of build [] (lit "/deploy")) []))
