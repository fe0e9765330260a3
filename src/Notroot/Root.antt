-- ===== src/Notroot/Root.antt =====
-- A run that is started by root: the group is set while the process still may set it.
use meta_security.Prelude.{ℕ, ◌<◌, ◌≡◌, ◌∙◌, List, ◌∷◌, none, some, arith, ok}
use meta_security.Text.{Str}
use meta_security.Text.Numbers.{ℤ, pos, int}
use meta_security.Notroot.Defs.{Cred, Kernel, started, executed, step, run}
use meta_security.Notroot.Safety.{IsKernel}

-- The largest number of a user or group is below this one, which stands for no change.
abbrev pub no_change : ℕ
no_change = 4294967295

-- What the kernel grants to user 0: to write this label, which is one that can be written, and any
-- group and user that has a number.
pub record GrantsRoot (k : Kernel) (label : Str) : Type 0 where
  pub write_label_root :
      (c : Cred) → c.uid ≡ pos 0 → (c' : Cred) × (k.write_label label c ≡ ok c') × (c'.uid ≡ pos 0)
  pub setgid_root :
      (n : ℕ) (c : Cred)
      → n < no_change
      → c.uid ≡ pos 0
      → (c' : Cred) × (k.setgid (pos n) c ≡ ok c')
  pub setuid_root :
      (n : ℕ) (c : Cred)
      → n < no_change
      → c.uid ≡ pos 0
      → (c' : Cred) × (k.setuid (pos n) c ≡ ok c')

run_lem :
    (k : Kernel) (prog user label path : Str) (rest : List Str) (uid : ℤ) (c c₁ c₂ c₃ : Cred)
    → int user ≡ some uid
    → k.write_label label c ≡ ok c₁
    → k.setgid uid c₁ ≡ ok c₂
    → k.setuid uid c₂ ≡ ok c₃
    → k.execv path (path ∷ rest) c₃ ≡ none
    → run k 8 (started (prog ∷ user ∷ label ∷ path ∷ rest) c) ≡ executed path (path ∷ rest) c₃
unfolding run step
run_lem k prog user label path rest uid c c₁ c₂ c₃ u w g s x = ground (arith, u, w, g, s, x)

-- Let the kernel grant root its calls, each changing what it is documented to change, the label be
-- one that root can write, and the program one that can be executed. Started by root with a number of
-- a user, which is below 2 ** 32 - 1, that label and that program, the script executes the program,
-- with the number as its user and group.
pub run-GrantsRoot :
    (k : Kernel) (prog user label path : Str) (rest : List Str) (n : ℕ) (c : Cred)
    → IsKernel k
    → GrantsRoot k label
    → ((c' : Cred) → k.execv path (path ∷ rest) c' ≡ none)
    → c.uid ≡ pos 0
    → int user ≡ some (pos n)
    → n < no_change
    → (c' : Cred) × (run k 8 (started (prog ∷ user ∷ label ∷ path ∷ rest) c)
        ≡ executed path (path ∷ rest) c')
      × (c'.uid ≡ pos n)
      × (c'.gid ≡ pos n)
run-GrantsRoot k prog user label path rest n c is_kernel grants x root u small =
    let (c₁, w, r₁) = grants.write_label_root c root in
    let (c₂, g) = grants.setgid_root n c₁ small r₁ in
    let (same, gid) = is_kernel.setgid_ids (pos n) c₁ c₂ g in
    let (c₃, s) = grants.setuid_root n c₂ small (same ∙ r₁) in
    let (own, same') = is_kernel.setuid_ids (pos n) c₂ c₃ s in
    (c₃, run_lem k prog user label path rest (pos n) c c₁ c₂ c₃ u w g s (x c₃), own, same' ∙ gid)
