-- ===== src/Cve/Defs.antt =====
-- The test over a build that is a parameter: what a variable of it is, and which files it has made,
-- by the actions before the question.
use meta_security.Prelude.{
  Bool, true, false, List, [], ◌∷◌, ◌++◌, Option, none, some, Result, ok, err, if◌then◌else◌,
}
use meta_security.Text.{Str, lit, is_infix}
use meta_security.Questions.Script.{join_path}

-- What the test does to the build.
pub data BuildAction : Type 0 where
  log_info : Str → BuildAction
  append_config : Str → BuildAction
  remove_config : Str → BuildAction
  bitbake : Str → BuildAction

abbrev pub BuildHistory : Type 0
BuildHistory = List BuildAction

-- `get_bb_var(name, target)`, where no target is given as the empty text, and `os.path.isfile`
pub record Build : Type 0 where
  pub get_bb_var : BuildHistory → Str → Str → Option Str
  pub is_file : BuildHistory → Str → Bool

pub data Failure : Type 0 where
  failed_assertion : Str → Failure
  type_error unbound_local_error : Failure

-- The result of the test or of a part of it, and all actions.
abbrev pub Outcome : Type 0 → Type 0
Outcome A = Result Failure A × BuildHistory

infixl 5 ◌then_do◌
abbrev pub ◌then_do◌ : {A B : Type 0} → Outcome A → (A → BuildHistory → Outcome B) → Outcome B
m then_do f = elim m.0 [ ok a ↦ f a m.1 | err e ↦ (err e, m.1) ]

-- `'cve-check' in get_bb_var('INHERIT')`, with a `TypeError` for `None`
unfoldable pub inherits_check : Build → BuildHistory → Outcome Bool
inherits_check b h = elim (b.get_bb_var h (lit "INHERIT") []) [
  | some classes ↦ (ok (is_infix (lit "cve-check") classes), h)
  | none ↦ (err type_error, h)
]

abbrev pub image : Str
image = lit "core-image-sato"

abbrev pub add_cve_check_config : Str
add_cve_check_config = lit "INHERIT += \"cve-check\""

-- `str(x)`, for a text or `None`
abbrev show : Option Str → Str
show none = lit "None"
show (some s) = s

-- `os.path.join(deploy_dir, "%s.cve" % image_link_name)`
abbrev pub link_of : Build → BuildHistory → Str → Str
link_of b h deploy_dir =
    join_path deploy_dir (show (b.get_bb_var h (lit "IMAGE_LINK_NAME") image) ++ lit ".cve")

-- It raises a `TypeError` when there is no `deploy_dir`.
unfoldable pub manifest_link : Build → BuildHistory → Outcome Str
manifest_link b h = elim (b.get_bb_var h (lit "DEPLOY_DIR_IMAGE") []) [
  | some deploy_dir ↦ (ok (link_of b h deploy_dir), h)
  | none ↦ (err type_error, h)
]

abbrev pub manifest_config : Str → Str
manifest_config link = lit "CVE_CHECK_MANIFEST = \"" ++ (link ++ lit "\"")

-- The first `if`: whether `add_cve_check_config` is bound behind it.
unfoldable pub add_class : Build → BuildHistory → Outcome Bool
unfolding inherits_check
add_class b h = inherits_check b h then_do λ inherits h'.
    if inherits then (ok false, h') else (ok true, h' ++ (append_config add_cve_check_config ∷ []))

-- The second `if`: a variable that is not bound is an `UnboundLocalError`.
unfoldable pub remove_class : Build → Bool → BuildHistory → Outcome (Unit {0})
unfolding inherits_check
remove_class b bound h = inherits_check b h then_do λ inherits h'.
    if inherits
    then (ok tt, h')
    else if bound
    then (ok tt, h' ++ (remove_config add_cve_check_config ∷ []))
    else (err unbound_local_error, h')

unfoldable pub check_manifest : Build → Str → BuildHistory → Outcome (Unit {0})
check_manifest b link h =
    if b.is_file h link
    then (ok tt, h)
    else (err (failed_assertion (lit "Failed to create cve data file : " ++ link)), h)

abbrev pub logged : Str → BuildHistory → BuildHistory
logged link h = h ++ (log_info (lit "CVE_CHECK_MANIFEST = \"" ++ (link ++ lit "\"")) ∷ [])

abbrev pub built : Str → BuildHistory → BuildHistory
built link h =
    h
    ++ (append_config (manifest_config link) ∷ [])
    ++ (bitbake (lit "-k -c cve_check " ++ image) ∷ [])

unfoldable pub test_cve_checker : Build → BuildHistory → Outcome (Unit {0})
unfolding manifest_link add_class remove_class check_manifest
test_cve_checker b h = manifest_link b h then_do λ link h₁.
    add_class b (logged link h₁) then_do λ bound h₂.
    remove_class b bound (built link h₂) then_do λ _ h₃. check_manifest b link h₃
