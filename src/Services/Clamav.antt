-- ===== src/Services/Clamav.antt =====
-- lib/oeqa/runtime/cases/clamav.py: the class `ClamavTest`.
use meta_security.Prelude.{◌≡◌, false, List, [], ◌∷◌, ◌++◌, err, refl}
use meta_security.Text.{Str, lit, str_eq, mem}
use meta_security.Text.Numbers.{decimal}
use meta_security.Oeqa.{tuple, name_error, Reply, Message, mkstemp, History, Target, M}
use meta_security.Oeqa.Verdict.{Verdict, HasStatus, report, expect_status, expect_status-Verdict}
use meta_security.Services.Resolv.{write_resolv, remove_resolv, ping_host, write_resolv_unnamed}

-- The names that the file imports.
unfoldable pub imports : List Str
imports =
    lit "re"
    ∷ lit "mkstemp"
    ∷ lit "OERuntimeTestCase"
    ∷ lit "OETestDepends"
    ∷ lit "OEHasPackage"
    ∷ []

-- `builtins` are the names that every module can use.
unfoldable pub set_up_class : List Str → M Str
unfolding write_resolv
set_up_class builtins = write_resolv (imports ++ builtins)

unfoldable pub tear_down_class : List Str → Str → M (Unit {0})
unfolding remove_resolv
tear_down_class builtins = remove_resolv (imports ++ builtins)

-- The message is a tuple of two texts, by a comma between them.
abbrev help_message : Reply → Message
help_message r =
    tuple (lit "freshclam --hlep  command does not work as expected. ")
      (lit "Status and output:" ++ (decimal r.status ++ (lit " and " ++ r.output)))

unfoldable pub test_freshclam_help : M (Unit {0})
unfolding expect_status
test_freshclam_help = expect_status (lit "freshclam --help ") 0 help_message

unfoldable pub test_ping_clamav_net : Str → M (Unit {0})
unfolding ping_host
test_ping_clamav_net tmp_path = ping_host tmp_path (lit "database.clamav.net")

unfoldable pub test_freshclam_download : M (Unit {0})
unfolding expect_status
test_freshclam_download =
    expect_status (lit "freshclam --show-progress") 0
      (report (lit "freshclam : DB dowbload failed. "))

imports-os : (builtins : List Str) → mem (lit "os") (imports ++ builtins) ≡ mem (lit "os") builtins
unfolding imports lit str_eq mem
imports-os builtins = refl

-- Where `os` is no name of every module, the class cannot be set up: after the temporary file is
-- made, `setUpClass` raises a `NameError`.
pub clamav_set_up :
    (builtins : List Str) (t : Target) (h : History)
    → mem (lit "os") builtins ≡ false
    → set_up_class builtins t h ≡ (err (name_error (lit "os")), h ++ (mkstemp ∷ []))
unfolding set_up_class
clamav_set_up builtins t h n = write_resolv_unnamed (imports ++ builtins) t h (rw imports-os n)

-- Both tests of one command send it and nothing else, and pass exactly when the status is 0.
pub clamav_verdicts :
    (t : Target) (h : History)
    → (Verdict t h test_freshclam_help (lit "freshclam --help ") (HasStatus 0))
      × (Verdict t h test_freshclam_download (lit "freshclam --show-progress") (HasStatus 0))
unfolding test_freshclam_help test_freshclam_download
clamav_verdicts t h = (
  expect_status-Verdict t h (lit "freshclam --help ") 0 help_message,
  expect_status-Verdict t h (lit "freshclam --show-progress") 0
      (report (lit "freshclam : DB dowbload failed. ")),
)
