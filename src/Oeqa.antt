-- ===== src/Oeqa.antt =====
-- What the runtime test cases use of OEQA and `unittest`: a target that runs commands, and
-- exceptions. OEQA itself is not part of the repository: a target is a parameter, any function that
-- gives the reply to an action from the actions before it.
pub mod Verdict
use meta_security.Prelude.{
  ℕ, ◌≡◌, ◌↔◌, Bool, true, false, not, List, [], ◌∷◌, ◌++◌, Option, none, some, Result, ok, err,
  ◌==◌, if◌then◌else◌,
}
use meta_security.Text.{Str, lit, str_eq, is_infix}

-- The text of a failure: a message, or a tuple of two that was given in its place.
pub data Message : Type 0 where
  text : Str → Message
  tuple : Str → Str → Message

-- `failure` is the `AssertionError` of `unittest`, with the message that the test gave.
pub data Exception : Type 0 where
  failure : Message → Exception
  skip_test : Str → Exception
  index_error value_error type_error : Exception
  name_error : Str → Exception

-- What a test does to the world: commands on the target, copies to it, and calls on the host.
pub data Action : Type 0 where
  run : Str → Action
  run_tuple : Str → Action
  copy_to : Str → Str → Action
  sleep : ℕ → Action
  mkstemp : Action
  write_file : Str → Str → Action
  remove_file : Str → Action

pub record Reply : Type 0 where
  pub status : ℕ
  pub output : Str

abbrev pub History : Type 0
History = List Action

abbrev pub Target : Type 0
Target = History → Action → Reply

-- A method: from the target and the actions so far, its result or exception and all actions.
abbrev pub M : Type 0 → Type 0
M A = Target → History → Result Exception A × History

infixl 5 ◌>>=◌ ◌>>◌
abbrev pub ◌>>=◌ : {A B : Type 0} → M A → (A → M B) → M B
◌>>=◌ m f t h = elim (m t h).0 [ ok a ↦ f a t (m t h).1 | err e ↦ (err e, (m t h).1) ]

abbrev pub ◌>>◌ : {A B : Type 0} → M A → M B → M B
m >> k = m >>= λ _. k

module _ {A : Type 0} where
  abbrev pub pure : A → M A
  pure a t h = (ok a, h)

  abbrev pub raise : Exception → M A
  raise e t h = (err e, h)

  abbrev pub from_result : Result Exception A → M A
  from_result r t h = (r, h)

abbrev pub act : Action → M Reply
act a t h = (ok (t h a), h ++ (a ∷ []))

-- `self.assertTrue(b, msg)`, and what is built on it
abbrev pub assert_true : Bool → Message → M (Unit {0})
assert_true b m t h = (if b then ok tt else err (failure m), h)

-- `self.assertEqual(status, expected, msg)`
abbrev pub assert_status : ℕ → ℕ → Message → M (Unit {0})
assert_status status expected = assert_true (status == expected)

-- `self.assertIn(part, s, msg)`
abbrev pub assert_in : Str → Str → Message → M (Unit {0})
assert_in part s = assert_true (is_infix part s)

abbrev pub fail : {A : Type 0} → Message → M A
fail m = raise (failure m)

-- A test passes if it raises nothing.
abbrev pub Passes : {A : Type 0} → M A → Target → History → Type 0
Passes {A} m t h = (a : A) × ((m t h).0 ≡ ok a)
