-- ===== src/Suite/Order.antt =====
-- Which tests have passed when a test runs.
use mathlib.Core.List.{Memᴰ}
use meta_security.Prelude.{
  ◌≡◌, ◌⊎◌, refl, sym, subst, Bool, true, false, ◌&&◌, List, [], ◌∷◌, ◌++◌, arith, Bool-cases, inl,
  inr,
}
use meta_security.Text.{Str, lit, str_eq, mem}
use meta_security.Text.Equality.{str_eq→eq, str_eq_refl}
use meta_security.Suite.Defs.{Test, ssh, dependencies}
use meta_security.Suite.Services.{
  aide_tests, apparmor_tests, checksec_tests, clamav_tests, firejail_tests,
}
use meta_security.Suite.Monitors.{samhain_tests, sssd_tests, suricata_tests, tripwire_tests}
use meta_security.Suite.SmackTests.{smack_tests}
use meta_security.Suite.Platform.{tpm2_tests, swtpm_tests, ima_tests, parsec_tests}

-- All tests of the repository.
abbrev pub suite : List Test
suite =
    aide_tests
    ++ (apparmor_tests
        ++ (checksec_tests
            ++ (clamav_tests
                ++ (firejail_tests
                    ++ (samhain_tests
                        ++ (sssd_tests
                            ++ (suricata_tests
                                ++ (tripwire_tests
                                    ++ (smack_tests
                                        ++ (tpm2_tests
                                            ++ (swtpm_tests
                                                ++ (ima_tests ++ parsec_tests))))))))))))

-- A run of OEQA: which tests have run, and which have passed. A test runs only if all tests on which
-- it depends have passed, and only a test that has run has passed.
pub record IsRun (ran passed : Str → Bool) : Type 0 where
  pub waits :
      (x : Test)
      → Memᴰ x suite
      → ran x.name ≡ true
      → (d : Str) → mem d (dependencies x) ≡ true
      → passed d ≡ true
  pub passed_ran : (n : Str) → passed n ≡ true → ran n ≡ true

-- A test depends on another one, directly or through tests between them.
pub data Needs : Str → Str → Type 0 where
  direct : (x : Test) (d : Str) → Memᴰ x suite → mem d (dependencies x) ≡ true → Needs x.name d
  through : {a b c : Str} → Needs a b → Needs b c → Needs a c

-- In any run, a test that has run finds all tests passed that it needs.
pub Needs-passed :
    (ran passed : Str → Bool) (a b : Str)
    → IsRun ran passed
    → Needs a b
    → ran a ≡ true
    → passed b ≡ true
Needs-passed ran passed a b r (direct x d m k) y = r.waits x m y d k
Needs-passed ran passed a c r (through {b = b} n n') y =
    Needs-passed ran passed b c r n' (r.passed_ran b (Needs-passed ran passed a b r n y))

-- The test has a dependency, and all of them stand before it.
all_in : List Str → List Str → Bool
all_in [] seen = true
all_in (d ∷ ds) seen = mem d seen && all_in ds seen

has_some : List Str → Bool
has_some [] = false
has_some (d ∷ ds) = true

is_ordered : List Str → List Test → Bool
unfolding all_in has_some
is_ordered seen [] = true
is_ordered seen (x ∷ xs) =
    has_some (dependencies x)
    && (all_in (dependencies x) seen && is_ordered (seen ++ (x.name ∷ [])) xs)

suite_ordered : is_ordered (ssh ∷ []) suite ≡ true
unfolding is_ordered all_in has_some mem str_eq lit
suite_ordered = refl

mem_first : (d : Str) (ds : List Str) → mem d (d ∷ ds) ≡ true
unfolding mem
mem_first d ds = ground (arith, str_eq_refl d)

last_mem :
    (m n : Str) (seen : List Str) → mem m seen ≡ false → mem m (seen ++ (n ∷ [])) ≡ true → m ≡ n
unfolding mem
last_mem m n [] z k = str_eq→eq m n (ground (arith, k))
last_mem m n (x ∷ seen) z k = last_mem m n seen (ground (arith, z)) (ground (arith, z, k))

-- A test that stands in its place needs the test of OEQA.
abbrev Rooted : Str → Type 0
Rooted n = (n ≡ ssh) ⊎ Needs n ssh

AllRooted : List Str → Type 0
AllRooted seen = (n : Str) → mem n seen ≡ true → Rooted n

Needs-ssh :
    (x : Test) (d : Str)
    → Memᴰ x suite
    → mem d (dependencies x) ≡ true
    → Rooted d
    → Needs x.name ssh
Needs-ssh x d m k (inl e) = direct x ssh m (rw (← e) k)
Needs-ssh x d m k (inr n) = through (direct x d m k) n

dependencies-Needs :
    (x : Test) (seen : List Str) (ds : List Str)
    → Memᴰ x suite
    → dependencies x ≡ ds
    → has_some ds ≡ true
    → all_in ds seen ≡ true
    → AllRooted seen
    → Needs x.name ssh
unfolding all_in has_some AllRooted mem
dependencies-Needs x seen [] m e h k r = cc
dependencies-Needs x seen (d ∷ ds) m e h k r =
    Needs-ssh x d m (rw e (mem_first d ds)) (r d (ground (arith, k)))

AllRooted-append :
    (seen : List Str) (n : Str) → AllRooted seen → Needs n ssh → AllRooted (seen ++ (n ∷ []))
unfolding AllRooted
AllRooted-append seen n r h m k = elim (Bool-cases (mem m seen)) [
  | inl y ↦ r m y
  | inr z ↦ inr (subst (λ (s : Str). Needs s ssh) (sym (last_mem m n seen z k)) h)
]

first_Needs :
    (seen : List Str) (y : Test) (ys : List Test)
    → is_ordered seen (y ∷ ys) ≡ true
    → Memᴰ y suite
    → AllRooted seen
    → Needs y.name ssh
unfolding is_ordered
first_Needs seen y ys o m r =
    dependencies-Needs y seen (dependencies y) m refl (ground (arith, o)) (ground (arith, o)) r

is_ordered-Needs :
    (seen : List Str) (xs : List Test)
    → is_ordered seen xs ≡ true
    → ((x : Test) → Memᴰ x xs → Memᴰ x suite)
    → AllRooted seen
    → (x : Test) → Memᴰ x xs
    → Needs x.name ssh
unfolding is_ordered
is_ordered-Needs seen [] o sub r x m = elim m [ ]
is_ordered-Needs seen (y ∷ ys) o sub r x (Memᴰ.head e) =
    subst (λ (z : Test). Needs z.name ssh) (sym e)
      (first_Needs seen y ys o (sub y (Memᴰ.head refl)) r)
is_ordered-Needs seen (y ∷ ys) o sub r x (Memᴰ.tail k) =
    is_ordered-Needs (seen ++ (y.name ∷ [])) ys (ground (arith, o)) (λ z q. sub z (Memᴰ.tail q))
      (AllRooted-append seen y.name r (first_Needs seen y ys o (sub y (Memᴰ.head refl)) r)) x k

ssh-AllRooted : AllRooted (ssh ∷ [])
unfolding AllRooted mem
ssh-AllRooted n k = inl (str_eq→eq n ssh (ground (arith, k)))

-- In any run of the suite, a test that has run finds the test of the connection passed.
pub suite-ssh :
    (ran passed : Str → Bool) (x : Test)
    → IsRun ran passed
    → Memᴰ x suite
    → ran x.name ≡ true
    → passed ssh ≡ true
suite-ssh ran passed x r m y =
    Needs-passed ran passed x.name ssh r
      (is_ordered-Needs (ssh ∷ []) suite suite_ordered (λ z q. q) ssh-AllRooted x m) y
