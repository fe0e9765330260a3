-- ===== src/Cve/Config.antt =====
-- What the CVE checker selftest leaves in the configuration of the build, and when it passes.
use meta_security.Prelude.{
  ◌≡◌, refl, ◌↔◌, Bool, true, false, not, [], ◌∷◌, ◌++◌, some, ok, Bool-cases, inl, inr,
}
use meta_security.Text.{Str, lit, is_infix}
use meta_security.Cve.Defs.{
  append_config, bitbake, BuildHistory, Build, inherits_check, manifest_link, add_class,
  remove_class, check_manifest, test_cve_checker, add_cve_check_config, built, logged, image,
  manifest_config, link_of,
}

-- `'cve-check' in get_bb_var('INHERIT')` holds after these actions.
abbrev pub Inherits : Build → BuildHistory → Type 0
Inherits b h = inherits_check b h ≡ (ok true, h)

-- What BitBake documents of `INHERIT`, at the actions of the test behind the history `h`: its `+=`
-- adds the class, an assignment to another variable leaves it, and so does a build.
pub record KeepsClasses (b : Build) (link : Str) (h : BuildHistory) : Type 0 where
  pub added : Inherits b (h ++ (append_config add_cve_check_config ∷ []))
  pub assigned :
      (h' : BuildHistory)
      → Inherits b h'
      → Inherits b (h' ++ (append_config (manifest_config link) ∷ []))
  pub baked :
      (h' : BuildHistory)
      → Inherits b h'
      → Inherits b (h' ++ (bitbake (lit "-k -c cve_check " ++ image) ∷ []))

-- The actions up to the first `if` and with it, for what it found.
abbrev pub with_class : Bool → BuildHistory → BuildHistory
with_class true h = h
with_class false h = h ++ (append_config add_cve_check_config ∷ [])

built-Inherits :
    (b : Build) (link : Str) (h h' : BuildHistory)
    → KeepsClasses b link h
    → Inherits b h'
    → Inherits b (built link h')
built-Inherits b link h h' k i =
    k.baked (h' ++ (append_config (manifest_config link) ∷ [])) (k.assigned h' i)

inherits_check-some :
    (b : Build) (h : BuildHistory) (classes : Str)
    → b.get_bb_var h (lit "INHERIT") [] ≡ some classes
    → inherits_check b h ≡ (ok (is_infix (lit "cve-check") classes), h)
unfolding inherits_check
inherits_check-some b h classes e = rw (inherits_check, e) refl

-- The first `if` leaves the class in the configuration, whatever it was before.
add_class-Inherits :
    (b : Build) (link : Str) (h : BuildHistory) (has : Bool)
    → KeepsClasses b link h
    → inherits_check b h ≡ (ok has, h)
    → (add_class b h ≡ (ok (not has), with_class has h)) × Inherits b (with_class has h)
unfolding add_class
add_class-Inherits b link h true k e = (rw e refl, e)
add_class-Inherits b link h false k e = (rw e refl, k.added)

-- So the second one finds it there, and removes nothing.
remove_class-Inherits :
    (b : Build) (bound : Bool) (h : BuildHistory)
    → Inherits b h
    → remove_class b bound h ≡ (ok tt, h)
unfolding remove_class
remove_class-Inherits b bound h i = rw i refl

manifest_link-some :
    (b : Build) (h : BuildHistory) (dir : Str)
    → b.get_bb_var h (lit "DEPLOY_DIR_IMAGE") [] ≡ some dir
    → manifest_link b h ≡ (ok (link_of b h dir), h)
unfolding manifest_link
manifest_link-some b h dir e = rw (manifest_link, e) refl

-- The actions of a whole run, for the path of the manifest and the classes before it.
abbrev pub final_history : Str → Str → BuildHistory → BuildHistory
final_history link classes h =
    built link (with_class (is_infix (lit "cve-check") classes) (logged link h))

check_manifest-ok :
    (b : Build) (link : Str) (h : BuildHistory)
    → ((check_manifest b link h).0 ≡ ok tt ↔ b.is_file h link ≡ true)
      × ((check_manifest b link h).1 ≡ h)
unfolding check_manifest
check_manifest-ok b link h = elim (Bool-cases (b.is_file h link)) [
  | inl y ↦ rw (check_manifest, y) ((λ e. refl, λ e. refl), refl)
  | inr n ↦ rw (check_manifest, n) ((λ e. cc, λ e. cc), refl)
]

test_cve_checker-check_manifest :
    (b : Build) (h : BuildHistory) (dir classes : Str)
    → b.get_bb_var h (lit "DEPLOY_DIR_IMAGE") [] ≡ some dir
    → b.get_bb_var (logged (link_of b h dir) h) (lit "INHERIT") [] ≡ some classes
    → KeepsClasses b (link_of b h dir) (logged (link_of b h dir) h)
    → (test_cve_checker b h
        ≡ check_manifest b (link_of b h dir) (final_history (link_of b h dir) classes h))
      × Inherits b (final_history (link_of b h dir) classes h)
unfolding test_cve_checker
test_cve_checker-check_manifest b h dir classes d c k =
    let link = link_of b h dir in
    let has = is_infix (lit "cve-check") classes in
    let first =
      add_class-Inherits b link (logged link h) has k
        (inherits_check-some b (logged link h) classes c) in
    let last = built-Inherits b link (logged link h) (with_class has (logged link h)) k first.1 in
    (
      rw (manifest_link-some b h dir d) (
          rw first.0
            (rw (remove_class-Inherits b (not has) (final_history link classes h) last) refl)),
      last,
    )

-- For a build that has a deploy directory and a value of `INHERIT`, in which `+=` adds the class
-- behind the log line, and neither the assignment of the manifest's path nor the build of the image
-- takes it away: the test passes exactly if the manifest is a file in the end, its actions are the
-- log line, the class if it was not inherited before, the manifest's path and the build, so that the
-- line that it has added is never removed, and `cve-check` is still inherited at the end.
pub test_cve_checker-Inherits :
    (b : Build) (h : BuildHistory) (dir classes : Str)
    → b.get_bb_var h (lit "DEPLOY_DIR_IMAGE") [] ≡ some dir
    → b.get_bb_var (logged (link_of b h dir) h) (lit "INHERIT") [] ≡ some classes
    → KeepsClasses b (link_of b h dir) (logged (link_of b h dir) h)
    → ((test_cve_checker b h).0 ≡ ok tt
        ↔ b.is_file (final_history (link_of b h dir) classes h) (link_of b h dir) ≡ true)
      × ((test_cve_checker b h).1 ≡ final_history (link_of b h dir) classes h)
      × Inherits b (final_history (link_of b h dir) classes h)
test_cve_checker-Inherits b h dir classes d c k =
    let both = test_cve_checker-check_manifest b h dir classes d c k in
    let last = check_manifest-ok b (link_of b h dir) (final_history (link_of b h dir) classes h) in
    rw both.0 (last.0, last.1, both.1)
