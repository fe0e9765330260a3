-- ===== src/Services/Unnamed.antt =====
-- What the missing import of os does to the set-up of the classes of clamav.py and suricata.py.
use meta_security.Prelude.{◌≡◌, false, List, [], ◌∷◌, ◌++◌, err}
use meta_security.Text.{Str, lit, mem}
use meta_security.Oeqa.{mkstemp, name_error, History, Target}
use meta_security.Services.Clamav
use meta_security.Services.Suricata

-- Where `os` is no name of every module, neither class can be set up: after the temporary file is
-- made, `setUpClass` raises a `NameError`.
pub set_up_class_unnamed :
    (builtins : List Str) (t : Target) (h : History)
    → mem (lit "os") builtins ≡ false
    → (Clamav.set_up_class builtins t h ≡ (err (name_error (lit "os")), h ++ (mkstemp ∷ [])))
      × (Suricata.set_up_class builtins t h ≡ (err (name_error (lit "os")), h ++ (mkstemp ∷ [])))
set_up_class_unnamed builtins t h n =
    (Clamav.clamav_set_up builtins t h n, Suricata.suricata_set_up builtins t h n)
