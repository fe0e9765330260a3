-- ===== src/Services/Tripwire.antt =====
-- lib/oeqa/runtime/cases/tripwire.py: the class `TripwireTest`.
use meta_security.Prelude.{◌≡◌, ◌↔◌, [], ◌∷◌, ◌++◌, ok}
use meta_security.Text.{Str, lit}
use meta_security.Oeqa.{Message, Reply, run, History, Target, M, ◌>>=◌, ◌>>◌, act}
use meta_security.Oeqa.Verdict.{
  Verdict, HasStatus, HasStatusOr, report, expect_status, expect_match, expect_status-Verdict,
  expect_match-Verdict,
}

unfoldable pub test_tripwire_help : M (Unit {0})
unfolding expect_status
test_tripwire_help =
    expect_status (lit "tripwire --help") 8
      (report (lit "tripwire command does not work as expected. "))

abbrev pub generated : Str
generated = lit "The database was successfully generated."

unfoldable pub test_tripwire_twinstall : M (Unit {0})
unfolding expect_match
test_tripwire_twinstall =
    expect_match (lit "/etc/tripwire/twinstall.sh") generated 0
      (report (lit "/etc/tripwire/twinstall.sh failed. "))

abbrev pub create_cfgfile : Str
create_cfgfile =
    lit
      "twadmin --create-cfgfile --cfgfile /etc/tripwire/twcfg.enc --site-keyfile /etc/tripwire/site.key -Q tripwire /etc/tripwire/twcfg.txt"

abbrev pub create_polfile : Str
create_polfile =
    lit
      "twadmin --create-polfile --cfgfile /etc/tripwire/twcfg.enc --polfile /etc/tripwire/twpol.enc --site-keyfile /etc/tripwire/site.key -Q tripwire /etc/tripwire/twpol.txt"

abbrev pub wrote : Str
wrote = lit "Wrote policy file: /etc/tripwire/twpol.enc"

-- The reply to the first command is not looked at.
unfoldable pub test_tripwire_twadmin : M (Unit {0})
unfolding expect_match
test_tripwire_twadmin =
    act (run create_cfgfile)
    >> expect_match create_polfile wrote 0 (report (lit "twadmin --create-profile ; failed. "))

abbrev pub tripwire_init : Str → Str
tripwire_init hostname =
    lit
      "tripwire --init --cfgfile /etc/tripwire/twcfg.enc --polfile /etc/tripwire/tw.pol --site-keyfile /etc/tripwire/site.key --local-keyfile /etc/tripwire/"
    ++ (hostname ++ lit "-local.key -P tripwire")

abbrev init_message : Str → Reply → Message
init_message hostname = report (lit "tripwire --init; Failed for host: " ++ (hostname ++ lit ". "))

unfoldable pub test_tripwire_init : M (Unit {0})
unfolding expect_match
test_tripwire_init = do
  n ← act (run (lit "hostname"))
  expect_match (tripwire_init n.output) generated 0 (init_message n.output)

-- The help test passes exactly when the status is 8. The others pass exactly when the last command
-- ends with status 0 or reports success. `twadmin` is judged by its second run alone, whatever the
-- first one did, and the key file of the last test carries the host's name.
pub tripwire_verdicts :
    (t : Target) (h : History)
    → (Verdict t h test_tripwire_help (lit "tripwire --help") (HasStatus 8))
      × (Verdict t h test_tripwire_twinstall
          (lit "/etc/tripwire/twinstall.sh")
          (HasStatusOr 0 generated))
      × (((test_tripwire_twadmin t h).0 ≡ ok tt)
          ↔ HasStatusOr 0 wrote (t (h ++ (run create_cfgfile ∷ [])) (run create_polfile)))
      × (((test_tripwire_init t h).0 ≡ ok tt)
          ↔ HasStatusOr 0 generated (
              t
                (h ++ (run (lit "hostname") ∷ []))
                (run (tripwire_init (t h (run (lit "hostname"))).output))))
unfolding test_tripwire_help test_tripwire_twinstall test_tripwire_twadmin test_tripwire_init
tripwire_verdicts t h =
    let named = t h (run (lit "hostname")) in
    (
      search expect_status-Verdict,
      search expect_match-Verdict,
      (expect_match-Verdict t (h ++ (run create_cfgfile ∷ [])) create_polfile wrote 0
          (report (lit "twadmin --create-profile ; failed. "))).1,
      (expect_match-Verdict t (h ++ (run (lit "hostname") ∷ [])) (tripwire_init named.output)
          generated 0 (init_message named.output)).1,
    )
