-- ===== src/Notroot/Defs.antt =====
-- The script as a machine that takes one step for each of its statements. What the kernel and the
-- interpreter do in a system call is a parameter.
use meta_security.Prelude.{ℕ, zero, suc, ◌≡◌, List, [], ◌∷◌, Option, none, some, Result, ok, err}
use meta_security.Text.{Str}
use meta_security.Text.Numbers.{ℤ, int}

-- An exception: one with the text `strerror`, an `OSError`, or one without it, such as `IndexError`,
-- `ValueError` and `OverflowError`.
pub data Failure : Type 0 where
  os_error : Str → Failure
  other_error : Failure

-- What a process is to the kernel.
pub record Cred : Type 0 where
  pub uid : ℤ
  pub gid : ℤ
  pub label : Str

-- The calls of the script. `write_label` is `open("/proc/self/attr/current", "w").write(label)`
-- up to the close of the file, whose errors are not raised: it may end without the label set.
-- `execv` returns only if it fails.
pub record Kernel : Type 0 where
  pub write_label : Str → Cred → Result Failure Cred
  pub setgid : ℤ → Cred → Result Failure Cred
  pub setuid : ℤ → Cred → Result Failure Cred
  pub execv : Str → List Str → Cred → Option Failure

-- Where the script is, with its variables and what is left of `sys.argv`.
pub data State : Type 0 where
  started : List Str → Cred → State
  parsed : ℤ → List Str → Cred → State
  named : ℤ → Str → List Str → Cred → State
  labelled : ℤ → List Str → Cred → State
  located : ℤ → Str → List Str → Cred → State
  grouped : ℤ → Str → List Str → Cred → State
  owned : Str → List Str → Cred → State
  raised : Failure → Cred → State
  executed : Str → List Str → Cred → State
  exited : ℕ → Option Str → Cred → State

-- `uid = int(sys.argv[1])`, and `sys.argv.pop(1)`
abbrev pub parse_uid : List Str → Cred → State
parse_uid [] c = raised other_error c
parse_uid (prog ∷ []) c = raised other_error c
parse_uid (prog ∷ a ∷ rest) c = elim (int a) [
  | some uid ↦ parsed uid (prog ∷ rest) c
  | none ↦ raised other_error c
]

-- `label = sys.argv[1]`, and `sys.argv.pop(1)`
abbrev pub take_label : ℤ → List Str → Cred → State
take_label uid [] c = raised other_error c
take_label uid (prog ∷ []) c = raised other_error c
take_label uid (prog ∷ label ∷ rest) c = named uid label (prog ∷ rest) c

-- `path = sys.argv[1]`, and `sys.argv.pop(0)`
abbrev pub take_path : ℤ → List Str → Cred → State
take_path uid [] c = raised other_error c
take_path uid (prog ∷ []) c = raised other_error c
take_path uid (prog ∷ path ∷ rest) c = located uid path (path ∷ rest) c

-- A call that gives the state behind it, or raises.
abbrev pub or_raised : Result Failure Cred → Cred → (Cred → State) → State
or_raised (ok c') c behind = behind c'
or_raised (err e) c behind = raised e c

abbrev pub replace_process : Option Failure → Str → List Str → Cred → State
replace_process none path argv c = executed path argv c
replace_process (some e) path argv c = raised e c

-- The `except` clause: `print(e.strerror)` and `sys.exit(-1)`. Where there is no `strerror`, the
-- `AttributeError` ends the interpreter with status 1.
abbrev pub handle : Failure → Cred → State
handle (os_error text) c = exited 255 (some text) c
handle other_error c = exited 1 none c

unfoldable pub step : Kernel → State → Option State
step k (started argv c) = some (parse_uid argv c)
step k (parsed uid argv c) = some (take_label uid argv c)
step k (named uid label argv c) = some (or_raised (k.write_label label c) c (labelled uid argv))
step k (labelled uid argv c) = some (take_path uid argv c)
step k (located uid path argv c) = some (or_raised (k.setgid uid c) c (grouped uid path argv))
step k (grouped uid path argv c) = some (or_raised (k.setuid uid c) c (owned path argv))
step k (owned path argv c) = some (replace_process (k.execv path argv c) path argv c)
step k (raised e c) = some (handle e c)
step k (executed path argv c) = none
step k (exited status text c) = none

-- The states that a run passes through.
pub data Reach (k : Kernel) (s : State) : State → Type 0 where
  here : Reach k s s
  next : {t u : State} → Reach k s t → step k t ≡ some u → Reach k s u

-- A run of at most so many steps.
unfoldable pub run : Kernel → ℕ → State → State
unfolding step
run k zero s = s
run k (suc n) s = elim (step k s) [ none ↦ s | some t ↦ run k n t ]
