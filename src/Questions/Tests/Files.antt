-- ===== src/Questions/Tests/Files.antt =====
-- The theorems on files and runs, at the installation of `Data`.
use meta_security.Prelude.{◌≡◌, some, refl, Bool, true, none, ok}
use meta_security.Text.{Str, lit}
use meta_security.Questions.Lines.{get_config}
use meta_security.Questions.Files.{find, read_lines, xform_file}
use meta_security.Questions.Script.{Args, main, absolute, transform}
use meta_security.Questions.Faults.{Faults, no_faults}
use meta_security.Questions.Transform.{Transformed, xform_file-Transformed, xform_file_twice}
use meta_security.Questions.Run.{AllSatisfied, main-AllSatisfied, main_debug}
use meta_security.Questions.Tests.Data.{os, os-IsFresh, yocto, yocto-IsName, config, fs, args, run}

abbrev path : Str
path = lit "/w/q/A.txt"

-- The device of the questions is full when the new file is moved.
abbrev full : Faults
full = record no_faults { move_error = λ fs. some (lit "No space left on device", none) }

xform_file-Transformed_example :
    Transformed path yocto (lit "two") fs (xform_file os path yocto (lit "two") fs).1
xform_file-Transformed_example =
    xform_file-Transformed os os-IsFresh path yocto (lit "two") yocto-IsName fs (unfold run in refl)

xform_file_twice_example :
    let fs' = (xform_file os path yocto (lit "two") fs).1 in
    ((xform_file os path yocto (lit "two") fs').0 ≡ ok tt)
    × ((p : Str) → find (xform_file os path yocto (lit "two") fs').1 p ≡ find fs' p)
xform_file_twice_example =
    xform_file_twice os path yocto (lit "two") fs os-IsFresh yocto-IsName (unfold run in refl)

main-AllSatisfied_example :
    let pairs = get_config (read_lines config.text) in
    (pairs.stop ≡ none) × AllSatisfied (absolute os args) fs (main os args fs).fs pairs.items
main-AllSatisfied_example =
    main-AllSatisfied os os-IsFresh args yocto-IsName fs config (unfold run in refl)
      (unfold run in refl) (unfold run in refl)

-- The configuration file is missing.
abbrev refused : Bool → Args
refused debug = record args { config_file = lit "none"; debug = debug }

main_debug_example :
    ((main os (refused true) fs).exit ≡ none)
    × ((main os (refused true) fs).fs ≡ (transform os (absolute os (refused true)) fs).1)
main_debug_example = main_debug os (refused true) fs refl
