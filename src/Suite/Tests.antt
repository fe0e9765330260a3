-- ===== src/Suite/Tests.antt =====
-- The theorem on the suite, at a run in which every test has run and passed.
use mathlib.Core.List.{Memᴰ}
use meta_security.Prelude.{◌≡◌, refl, Bool, true}
use meta_security.Text.{Str}
use meta_security.Suite.Defs.{ssh}
use meta_security.Suite.Services.{decorated_aide_dbinit}
use meta_security.Suite.Order.{IsRun, suite-ssh}

abbrev all_run : Str → Bool
all_run n = true

all_run-IsRun : IsRun all_run all_run
all_run-IsRun = record { waits = λ x m y d k. refl; passed_ran = λ n y. refl }

suite-ssh_example : all_run ssh ≡ true
suite-ssh_example =
    suite-ssh all_run all_run decorated_aide_dbinit all_run-IsRun (Memᴰ.tail (Memᴰ.head refl)) refl
