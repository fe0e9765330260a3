-- ===== src/Suite/Defs.antt =====
-- A test as its decorators describe it to OEQA, which is not part of the repository.
use meta_security.Prelude.{List, [], ◌∷◌, ◌++◌}
use meta_security.Text.{Str, lit}

-- `@OEHasPackage`, `@OETestDepends`, `@skipIfNotFeature` and `@skipIfNotDataVar`, with their
-- arguments
pub data Decorator : Type 0 where
  has_package : List Str → Decorator
  test_depends : List Str → Decorator
  skip_if_not_feature : Str → Str → Decorator
  skip_if_not_data_var : Str → Str → Str → Decorator

-- The name of a test, as others name it, and its decorators, the outermost first.
pub record Test : Type 0 where
  pub name : Str
  pub decorators : List Decorator

-- The test of OEQA on which the first test of a class depends.
abbrev pub ssh : Str
ssh = lit "ssh.SSHTest.test_ssh"

abbrev pub depends_of : List Decorator → List Str
depends_of [] = []
depends_of (has_package ps ∷ ds) = depends_of ds
depends_of (test_depends ts ∷ ds) = ts ++ depends_of ds
depends_of (skip_if_not_feature f m ∷ ds) = depends_of ds
depends_of (skip_if_not_data_var v x m ∷ ds) = depends_of ds

abbrev pub dependencies : Test → List Str
dependencies x = depends_of x.decorators
