-- ===== src/Questions/Tests/Views.antt =====
-- The theorems on the views of questions files, at the installation of `Data`.
use mathlib.Core.List.{Permᴰ}
use meta_security.Prelude.{◌≡◌, refl, true, false, List, [], ◌∷◌, none, ok}
use meta_security.Text.{Str, lit}
use meta_security.Questions.Lines.{get_config, add_requires}
use meta_security.Questions.Files.{read_lines}
use meta_security.Questions.Script.{Args, absolute, xform_all, main}
use meta_security.Questions.View.{is_questions, view, insert}
use meta_security.Questions.Insert.{add_requires-insert}
use meta_security.Questions.Shelf.{questions_at, insert_all, AllShelved}
use meta_security.Questions.Order.{xform_all_perm, main_succeeds}
use meta_security.Questions.Tests.Data.{
  os, os-IsFresh, yocto, yocto-IsName, questions, config, fs, args, run,
}

abbrev lines : List Str
lines = lit "FILE: A\n" ∷ lit "LABEL: two\n" ∷ lit "REQUIRE_DISTRO: DB\n" ∷ []

add_requires-insert_example :
    ((add_requires (lit "two") yocto lines).stop ≡ none)
    × (is_questions false (add_requires (lit "two") yocto lines).items ≡ true)
    × (view (add_requires (lit "two") yocto lines).items ≡ insert (lit "two") yocto (view lines))
add_requires-insert_example =
    add_requires-insert (lit "two") yocto yocto-IsName lines (unfold run is_questions in refl)

abbrev full : Args
full = record args { config_file = lit "/w/config"; questions_dir = lit "/w/q" }

abbrev pairs : List (Str × Str)
pairs = (lit "A", lit "two") ∷ (lit "A", lit "one") ∷ []

abbrev pairs' : List (Str × Str)
pairs' = (lit "A", lit "one") ∷ (lit "A", lit "two") ∷ []

xform_all_perm_example :
    ((xform_all os full pairs none fs).0 ≡ ok tt)
    × ((xform_all os full pairs' none fs).0 ≡ ok tt)
    × ((p : Str)
        → questions_at (xform_all os full pairs none fs).1 p
          ≡ questions_at (xform_all os full pairs' none fs).1 p)
xform_all_perm_example = xform_all_perm os full fs os-IsFresh yocto-IsName (Permᴰ.swap refl refl) (
  (questions, unfold run in refl, unfold run is_questions in refl),
  ((questions, unfold run in refl, unfold run is_questions in refl), tt),
)

config-AllShelved : AllShelved (absolute os args) fs (get_config (read_lines config.text)).items
unfolding run is_questions
config-AllShelved = ((questions, refl, refl), tt)

main_succeeds_example :
    ((main os args fs).exit ≡ none)
    × ((main os args fs).traces ≡ [])
    × ((p : Str)
        → questions_at (main os args fs).fs p
          ≡ insert_all
              (absolute os args)
              p
              (get_config (read_lines config.text)).items
              (questions_at fs p))
main_succeeds_example =
    main_succeeds os args fs config os-IsFresh yocto-IsName (unfold run in refl)
      (unfold run in refl) (unfold run in refl) config-AllShelved
