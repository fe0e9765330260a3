-- ===== src/Notroot/Safety.antt =====
-- What is executed, and as whom: an invariant of every state that a run reaches.
use mathlib.Core.Option.{some-injective}
use meta_security.Prelude.{
  ◌≡◌, refl, ap, sym, subst, ◌∙◌, List, [], ◌∷◌, Option, none, some, Result, ok, err,
}
use meta_security.Text.{Str}
use meta_security.Text.Numbers.{ℤ, int}
use meta_security.Notroot.Defs.{
  Failure, os_error, other_error, Cred, Kernel, parse_uid, take_label, take_path, or_raised,
  replace_process, handle, State, started, parsed, named, labelled, located, grouped, owned, raised,
  executed, exited, step, Reach, here, next,
}

-- What the calls are documented to do where they succeed: each sets one part of the credentials.
pub record IsKernel (k : Kernel) : Type 0 where
  pub setgid_ids : (g : ℤ) (c c' : Cred) → k.setgid g c ≡ ok c' → (c'.uid ≡ c.uid) × (c'.gid ≡ g)
  pub setuid_ids : (u : ℤ) (c c' : Cred) → k.setuid u c ≡ ok c' → (c'.uid ≡ u) × (c'.gid ≡ c.gid)

-- The arguments are the program, a user, a label, and these.
abbrev pub Names : List Str → ℤ → List Str → Type 0
Names argv uid rest =
    (prog : Str) × (user : Str) × (label : Str) × (argv ≡ prog ∷ user ∷ label ∷ rest)
    × (int user ≡ some uid)

-- What holds of each state of a run on these arguments.
abbrev pub Inv : List Str → State → Type 0
Inv argv (started a c) = a ≡ argv
Inv argv (parsed uid a c) =
    (prog : Str) × (user : Str) × (rest : List Str) × (argv ≡ prog ∷ user ∷ rest)
    × (int user ≡ some uid)
    × (a ≡ prog ∷ rest)
Inv argv (named uid label a c) =
    (prog : Str) × (rest : List Str) × Names argv uid rest × (a ≡ prog ∷ rest)
Inv argv (labelled uid a c) =
    (prog : Str) × (rest : List Str) × Names argv uid rest × (a ≡ prog ∷ rest)
Inv argv (located uid path a c) =
    (rest : List Str) × Names argv uid (path ∷ rest) × (a ≡ path ∷ rest)
Inv argv (grouped uid path a c) =
    (rest : List Str) × Names argv uid (path ∷ rest) × (a ≡ path ∷ rest) × (c.gid ≡ uid)
Inv argv (owned path a c) =
    (uid : ℤ) × (rest : List Str) × Names argv uid (path ∷ rest)
    × (a ≡ path ∷ rest)
    × (c.gid ≡ uid)
    × (c.uid ≡ uid)
Inv argv (raised e c) = Unit
Inv argv (executed path a c) =
    (uid : ℤ) × (rest : List Str) × Names argv uid (path ∷ rest)
    × (a ≡ path ∷ rest)
    × (c.gid ≡ uid)
    × (c.uid ≡ uid)
Inv argv (exited status text c) = Unit

cons_tail : List Str → List Str
cons_tail [] = []
cons_tail (x ∷ xs) = xs

tail_of : {x y : Str} {xs ys : List Str} → x ∷ xs ≡ y ∷ ys → xs ≡ ys
unfolding cons_tail
tail_of e = ap cons_tail e

parse_uid-Inv : (a : List Str) (c : Cred) → Inv a (parse_uid a c)
parse_uid-Inv [] c = tt
parse_uid-Inv (prog ∷ []) c = tt
parse_uid-Inv (prog ∷ user ∷ rest) c = go (int user) refl
  where
    go :
        (r : Option ℤ)
        → int user ≡ r
        → Inv
            (prog ∷ user ∷ rest)
            (elim r [ some uid ↦ parsed uid (prog ∷ rest) c | none ↦ raised other_error c ])
    go none e = tt
    go (some uid) e = (prog, user, rest, refl, e, refl)

take_label-Inv :
    (argv : List Str) (uid : ℤ) (a : List Str) (c : Cred)
    → Inv argv (parsed uid a c)
    → Inv argv (take_label uid a c)
take_label-Inv argv uid [] c i = tt
take_label-Inv argv uid (p ∷ []) c i = tt
take_label-Inv argv uid (p ∷ label ∷ more) c (prog, user, rest, e, u, f) = (
  p,
  more,
  (prog, user, label, e ∙ ap (λ (r : List Str). prog ∷ user ∷ r) (sym (tail_of f)), u),
  refl,
)

take_path-Inv :
    (argv : List Str) (uid : ℤ) (a : List Str) (c : Cred)
    → Inv argv (labelled uid a c)
    → Inv argv (take_path uid a c)
take_path-Inv argv uid [] c i = tt
take_path-Inv argv uid (p ∷ []) c i = tt
take_path-Inv argv uid (p ∷ path ∷ more) c (prog, rest, (prog', user, label, e, u), f) = (
  more,
  (prog', user, label, e ∙ ap (λ (r : List Str). prog' ∷ user ∷ label ∷ r) (sym (tail_of f)), u),
  refl,
)

module _ (k : Kernel) (ok_kernel : IsKernel k) (argv : List Str) where
  write_label-Inv :
      (uid : ℤ) (label : Str) (a : List Str) (c : Cred)
      → Inv argv (named uid label a c)
      → (r : Result Failure Cred) → Inv argv (or_raised r c (labelled uid a))
  write_label-Inv uid label a c i (err e) = tt
  write_label-Inv uid label a c i (ok c') = i

  setgid-Inv :
      (uid : ℤ) (path : Str) (a : List Str) (c : Cred)
      → Inv argv (located uid path a c)
      → (r : Result Failure Cred) → k.setgid uid c ≡ r
      → Inv argv (or_raised r c (grouped uid path a))
  setgid-Inv uid path a c i (err x) e = tt
  setgid-Inv uid path a c (rest, n, f) (ok c') e = (rest, n, f, (ok_kernel.setgid_ids uid c c' e).1)

  setuid-Inv :
      (uid : ℤ) (path : Str) (a : List Str) (c : Cred)
      → Inv argv (grouped uid path a c)
      → (r : Result Failure Cred) → k.setuid uid c ≡ r
      → Inv argv (or_raised r c (owned path a))
  setuid-Inv uid path a c i (err x) e = tt
  setuid-Inv uid path a c (rest, n, f, g) (ok c') e =
      let (u, g') = ok_kernel.setuid_ids uid c c' e in (uid, rest, n, f, g' ∙ g, u)

  execv-Inv :
      (path : Str) (a : List Str) (c : Cred)
      → Inv argv (owned path a c)
      → (r : Option Failure) → Inv argv (replace_process r path a c)
  execv-Inv path a c i none = i
  execv-Inv path a c i (some e) = tt

  handle-Inv : (e : Failure) (c : Cred) → Inv argv (handle e c)
  handle-Inv (os_error text) c = tt
  handle-Inv other_error c = tt

  step-Inv : (s t : State) → Inv argv s → step k s ≡ some t → Inv argv t
  unfolding step
  step-Inv (started a c) t i e =
      subst (Inv argv) (some-injective _ _ e)
        (subst (λ (b : List Str). Inv b (parse_uid a c)) i (parse_uid-Inv a c))
  step-Inv (parsed uid a c) t i e =
      subst (Inv argv) (some-injective _ _ e) (take_label-Inv argv uid a c i)
  step-Inv (named uid label a c) t i e =
      subst (Inv argv) (some-injective _ _ e)
        (write_label-Inv uid label a c i (k.write_label label c))
  step-Inv (labelled uid a c) t i e =
      subst (Inv argv) (some-injective _ _ e) (take_path-Inv argv uid a c i)
  step-Inv (located uid path a c) t i e =
      subst (Inv argv) (some-injective _ _ e) (setgid-Inv uid path a c i (k.setgid uid c) refl)
  step-Inv (grouped uid path a c) t i e =
      subst (Inv argv) (some-injective _ _ e) (setuid-Inv uid path a c i (k.setuid uid c) refl)
  step-Inv (owned path a c) t i e =
      subst (Inv argv) (some-injective _ _ e) (execv-Inv path a c i (k.execv path a c))
  step-Inv (raised x c) t i e = subst (Inv argv) (some-injective _ _ e) (handle-Inv x c)
  step-Inv (executed path a c) t i e = cc
  step-Inv (exited status text c) t i e = cc

  Reach-Inv : {s t : State} → Inv argv s → Reach k s t → Inv argv t
  Reach-Inv i here = i
  Reach-Inv i (next {t} {u} r e) = step-Inv t u (Reach-Inv i r) e

-- Let the calls change of the credentials what they are documented to change. Whatever a run of the
-- script executes, is the third argument, with the arguments from the third on, and is executed with
-- the number in the first argument as its user and its group.
pub Reach-executed :
    (k : Kernel) (argv : List Str) (c c' : Cred) (path : Str) (args : List Str)
    → IsKernel k
    → Reach k (started argv c) (executed path args c')
    → (uid : ℤ) × (prog : Str) × (user : Str) × (label : Str) × (rest : List Str) × (argv
        ≡ prog ∷ user ∷ label ∷ path ∷ rest)
      × (int user ≡ some uid)
      × (args ≡ path ∷ rest)
      × (c'.uid ≡ uid)
      × (c'.gid ≡ uid)
Reach-executed k argv c c' path args ok_kernel r =
    let (uid, rest, (prog, user, label, e, u), f, g, h) = Reach-Inv k ok_kernel argv refl r in
    (uid, prog, user, label, rest, e, u, f, h, g)
