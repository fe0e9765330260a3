-- ===== src/Notroot/Status.antt =====
-- How a run of the script ends, for each way in which one of its statements may fail.
use meta_security.Prelude.{
  ℕ, zero, suc, ◌≡◌, List, [], ◌∷◌, none, some, arith, ok, err, inl, inr, Option-cases,
  Result-cases,
}
use meta_security.Text.{Str}
use meta_security.Text.Numbers.{ℤ, int}
use meta_security.Notroot.Defs.{
  Failure, os_error, other_error, Cred, Kernel, State, started, raised, executed, exited, step, run,
}

-- The calls that a run makes before the program is executed, as far as they succeed.
module _ (k : Kernel) (label : Str) (uid : ℤ) (c : Cred) where
  abbrev pub Labels : Cred → Type 0
  Labels c₁ = k.write_label label c ≡ ok c₁

  abbrev pub Groups : Cred → Cred → Type 0
  Groups c₁ c₂ = Labels c₁ × (k.setgid uid c₁ ≡ ok c₂)

  abbrev pub Owns : Cred → Cred → Cred → Type 0
  Owns c₁ c₂ c₃ = Labels c₁ × (k.setgid uid c₁ ≡ ok c₂) × (k.setuid uid c₂ ≡ ok c₃)

-- What the arguments, or the first call that fails, raise.
pub data Fails (k : Kernel) : List Str → Cred → Failure → Type 0 where
  no_program : (c : Cred) → Fails k [] c other_error
  no_user : (prog : Str) (c : Cred) → Fails k (prog ∷ []) c other_error
  bad_user :
      (prog user : Str) (rest : List Str) (c : Cred)
      → int user ≡ none
      → Fails k (prog ∷ user ∷ rest) c other_error
  no_label :
      (prog user : Str) (uid : ℤ) (c : Cred)
      → int user ≡ some uid
      → Fails k (prog ∷ user ∷ []) c other_error
  label_fails :
      (prog user label : Str) (rest : List Str) (uid : ℤ) (c : Cred) (e : Failure)
      → int user ≡ some uid
      → k.write_label label c ≡ err e
      → Fails k (prog ∷ user ∷ label ∷ rest) c e
  no_path :
      (prog user label : Str) (uid : ℤ) (c c₁ : Cred)
      → int user ≡ some uid
      → Labels k label uid c c₁
      → Fails k (prog ∷ user ∷ label ∷ []) c other_error
  setgid_fails :
      (prog user label path : Str) (rest : List Str) (uid : ℤ) (c c₁ : Cred) (e : Failure)
      → int user ≡ some uid
      → Labels k label uid c c₁
      → k.setgid uid c₁ ≡ err e
      → Fails k (prog ∷ user ∷ label ∷ path ∷ rest) c e
  setuid_fails :
      (prog user label path : Str) (rest : List Str) (uid : ℤ) (c c₁ c₂ : Cred) (e : Failure)
      → int user ≡ some uid
      → Groups k label uid c c₁ c₂
      → k.setuid uid c₂ ≡ err e
      → Fails k (prog ∷ user ∷ label ∷ path ∷ rest) c e
  execv_fails :
      (prog user label path : Str) (rest : List Str) (uid : ℤ) (c c₁ c₂ c₃ : Cred) (e : Failure)
      → int user ≡ some uid
      → Owns k label uid c c₁ c₂ c₃
      → k.execv path (path ∷ rest) c₃ ≡ some e
      → Fails k (prog ∷ user ∷ label ∷ path ∷ rest) c e

-- How a run ends: what failed decides the status and what is printed.
pub data IsOutcome (k : Kernel) : List Str → Cred → State → Type 0 where
  succeeds :
      (prog user label path : Str) (rest : List Str) (uid : ℤ) (c c₁ c₂ c₃ : Cred)
      → int user ≡ some uid
      → Owns k label uid c c₁ c₂ c₃
      → k.execv path (path ∷ rest) c₃ ≡ none
      → IsOutcome k (prog ∷ user ∷ label ∷ path ∷ rest) c (executed path (path ∷ rest) c₃)
  reports :
      (argv : List Str) (c c' : Cred) (text : Str)
      → Fails k argv c (os_error text)
      → IsOutcome k argv c (exited 255 (some text) c')
  breaks :
      (argv : List Str) (c c' : Cred)
      → Fails k argv c other_error
      → IsOutcome k argv c (exited 1 none c')

module _ (k : Kernel) where
  Fails-IsOutcome :
      (n : ℕ) (argv : List Str) (c c' : Cred) (e : Failure)
      → Fails k argv c e
      → IsOutcome k argv c (run k (suc n) (raised e c'))
  unfolding run step
  Fails-IsOutcome zero argv c c' (os_error text) f = reports argv c c' text f
  Fails-IsOutcome (suc n) argv c c' (os_error text) f = reports argv c c' text f
  Fails-IsOutcome zero argv c c' other_error f = breaks argv c c' f
  Fails-IsOutcome (suc n) argv c c' other_error f = breaks argv c c' f

  module _ (prog user label path : Str) (rest : List Str) (uid : ℤ) (c : Cred)
      (u : int user ≡ some uid) where
    abbrev argv : List Str
    argv = prog ∷ user ∷ label ∷ path ∷ rest

    execv-IsOutcome :
        (c₁ c₂ c₃ : Cred)
        → Owns k label uid c c₁ c₂ c₃
        → IsOutcome k argv c (run k 8 (started argv c))
    unfolding run step
    execv-IsOutcome c₁ c₂ c₃ (w, g, s) = elim (Option-cases (k.execv path (path ∷ rest) c₃)) [
      | inl x ↦
          let same : run k 8 (started argv c) ≡ executed path (path ∷ rest) c₃ =
            ground (arith, u, w, g, s, x) in
          rw same (succeeds prog user label path rest uid c c₁ c₂ c₃ u (w, g, s) x)
      | inr (e, x) ↦
          let same : run k 8 (started argv c) ≡ run k 1 (raised e c₃) =
            ground (arith, u, w, g, s, x) in
          rw same (
            Fails-IsOutcome 0 argv c c₃ e
              (execv_fails prog user label path rest uid c c₁ c₂ c₃ e u (w, g, s) x))
    ]

    setuid-IsOutcome :
        (c₁ c₂ : Cred) → Groups k label uid c c₁ c₂ → IsOutcome k argv c (run k 8 (started argv c))
    unfolding run step
    setuid-IsOutcome c₁ c₂ (w, g) = elim (Result-cases (k.setuid uid c₂)) [
      | inl (c₃, s) ↦ execv-IsOutcome c₁ c₂ c₃ (w, g, s)
      | inr (e, s) ↦
          let same : run k 8 (started argv c) ≡ run k 2 (raised e c₂) =
            ground (arith, u, w, g, s) in
          rw same (
            Fails-IsOutcome 1 argv c c₂ e
              (setuid_fails prog user label path rest uid c c₁ c₂ e u (w, g) s))
    ]

    setgid-IsOutcome :
        (c₁ : Cred) → Labels k label uid c c₁ → IsOutcome k argv c (run k 8 (started argv c))
    unfolding run step
    setgid-IsOutcome c₁ w = elim (Result-cases (k.setgid uid c₁)) [
      | inl (c₂, g) ↦ setuid-IsOutcome c₁ c₂ (w, g)
      | inr (e, g) ↦
          let same : run k 8 (started argv c) ≡ run k 3 (raised e c₁) = ground (arith, u, w, g) in
          rw same (
            Fails-IsOutcome 2 argv c c₁ e (setgid_fails prog user label path rest uid c c₁ e u w g))
    ]

  path-IsOutcome :
      (prog user label : Str) (rest : List Str) (uid : ℤ) (c c₁ : Cred)
      → int user ≡ some uid
      → Labels k label uid c c₁
      → IsOutcome k
          (prog ∷ user ∷ label ∷ rest)
          c
          (run k 8 (started (prog ∷ user ∷ label ∷ rest) c))
  unfolding run step
  path-IsOutcome prog user label [] uid c c₁ u w =
      let argv = prog ∷ user ∷ label ∷ [] in
      let same : run k 8 (started argv c) ≡ run k 4 (raised other_error c₁) =
        ground (arith, u, w) in
      rw same (Fails-IsOutcome 3 argv c c₁ other_error (no_path prog user label uid c c₁ u w))
  path-IsOutcome prog user label (path ∷ rest) uid c c₁ u w =
      setgid-IsOutcome prog user label path rest uid c u c₁ w

  label-IsOutcome :
      (prog user : Str) (rest : List Str) (uid : ℤ) (c : Cred)
      → int user ≡ some uid
      → IsOutcome k (prog ∷ user ∷ rest) c (run k 8 (started (prog ∷ user ∷ rest) c))
  unfolding run step
  label-IsOutcome prog user [] uid c u =
      let argv = prog ∷ user ∷ [] in
      let same : run k 8 (started argv c) ≡ run k 6 (raised other_error c) = ground (arith, u) in
      rw same (Fails-IsOutcome 5 argv c c other_error (no_label prog user uid c u))
  label-IsOutcome prog user (label ∷ rest) uid c u = elim (Result-cases (k.write_label label c)) [
    | inl (c₁, w) ↦ path-IsOutcome prog user label rest uid c c₁ u w
    | inr (e, w) ↦
        let argv = prog ∷ user ∷ label ∷ rest in
        let same : run k 8 (started argv c) ≡ run k 5 (raised e c) = ground (arith, u, w) in
        rw same (Fails-IsOutcome 4 argv c c e (label_fails prog user label rest uid c e u w))
  ]

-- A run of the script ends in one of three ways. If the arguments name a number, a label and a
-- program and all calls succeed, the program is executed with the credentials that the calls have
-- left. If the first call to fail raises an `OSError`, its text is printed and the status is 255. If
-- the arguments are too few or the user is no number, or the call raises something else, the script
-- ends with status 1 and a traceback, and prints no text.
pub run-IsOutcome :
    (k : Kernel) (argv : List Str) (c : Cred) → IsOutcome k argv c (run k 8 (started argv c))
unfolding run step
run-IsOutcome k [] c = breaks [] c c (no_program c)
run-IsOutcome k (prog ∷ []) c = breaks (prog ∷ []) c c (no_user prog c)
run-IsOutcome k (prog ∷ user ∷ rest) c = elim (Option-cases (int user)) [
  | inr (uid, u) ↦ label-IsOutcome k prog user rest uid c u
  | inl u ↦
      let argv = prog ∷ user ∷ rest in
      let same : run k 8 (started argv c) ≡ run k 7 (raised other_error c) = ground (arith, u) in
      rw same (Fails-IsOutcome k 6 argv c c other_error (bad_user prog user rest c u))
]
