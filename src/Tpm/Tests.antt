-- ===== src/Tpm/Tests.antt =====
-- The theorems on the TPM tests at a target that answers every command with status 0 and two lines.
use meta_security.Prelude.{◌≡◌, ◌≤◌, ◌↔◌, [], ◌∷◌, ok}
use meta_security.Text.{Str, lit}
use meta_security.Oeqa.{run, Target}
use meta_security.Tpm.Endlines.{check_endlines, check_endlines_lem, count, split_lines}
use meta_security.Tpm.Cases.{pcr_lines, test_tpm2_pcrread, test_tpm2_pcrread_lem}

abbrev output : Str
output = lit "  sha1:\r\n  sha256:\n"

abbrev target : Target
target h a = record { status = 0; output = output }

check_endlines_lem_example :
    ((check_endlines output (lit "  sha256:" ∷ lit "  sha1:" ∷ []) target []).0 ≡ ok tt)
    ↔ ((x : Str) → count x (lit "  sha256:" ∷ lit "  sha1:" ∷ []) ≤ count x (split_lines output))
check_endlines_lem_example =
    check_endlines_lem output (lit "  sha256:" ∷ lit "  sha1:" ∷ []) target []

test_tpm2_pcrread_lem_example :
    ((test_tpm2_pcrread target []).1 ≡ run (lit "tpm2_pcrread") ∷ [])
    × (((test_tpm2_pcrread target []).0 ≡ ok tt)
        ↔ ((x : Str) → count x pcr_lines ≤ count x (split_lines output)))
test_tpm2_pcrread_lem_example = test_tpm2_pcrread_lem target []
