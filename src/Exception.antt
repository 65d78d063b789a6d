-- ===== src/Exception.antt =====
-- include/klib/exception.h: the exception classes, and how code that may throw runs. `M W A` is
-- code over the state `W` of the world: an exception keeps the state that it met.
pub mod Triple
pub mod Total
use klib.Base.{Bool, List, Bytes, if◌then◌else◌}

-- The exception classes, each with the format text and the arguments that its constructor is given, and
-- `std::length_error`, which a `resize` beyond the largest string throws.
pub data Error : Type 0 where
  runtime_error : Bytes → List Bytes → Error
  logic_error : Bytes → List Bytes → Error
  invalid_argument : Bytes → List Bytes → Error
  out_of_range : Bytes → List Bytes → Error
  length_error : Error

-- What a call does: it returns, it throws, or the process ends (`std::terminate`, a failed `Expects`).
pub data Result {ℓ} (A : Type ℓ) : Type ℓ where
  ok : A → Result A
  throw : Error → Result A
  terminated : Result A

abbrev pub M {ℓ κ} : Type ℓ → Type κ → Type (ℓ ⊔ κ)
M W A = W → Result A × W

module _ {ℓ} {W : Type ℓ} where
  abbrev pub and_then {κ μ} : {A : Type κ} {B : Type μ} → Result A × W → (A → M W B) → Result B × W
  and_then (ok a, w) f = f a w
  and_then (throw e, w) f = (throw e, w)
  and_then (terminated, w) f = (terminated, w)

  infixl 5 ◌>>=◌ ◌>>◌
  abbrev pub ◌>>=◌ {κ μ} : {A : Type κ} {B : Type μ} → M W A → (A → M W B) → M W B
  ◌>>=◌ m f w = and_then (m w) f

  abbrev pub ◌>>◌ {μ} : {B : Type μ} → M W (Unit {0}) → M W B → M W B
  m >> k = m >>= λ _. k

  abbrev pub return {κ} : {A : Type κ} → A → M W A
  return a w = (ok a, w)

  abbrev pub raise {κ} : {A : Type κ} → Error → M W A
  raise e w = (throw e, w)

  -- `if (bad) throw e;`
  abbrev pub throw_if : Bool → Error → M W (Unit {0})
  throw_if bad e w = if bad then (throw e, w) else (ok tt, w)

  -- The state after a scope's body and its guard's action, with what each of them did. An exception
  -- out of the action while another is in flight ends the process.
  abbrev pub leave {κ} : {A : Type κ} → Result A → Result (Unit {0}) × W → Result A × W
  leave r (ok _, w) = (r, w)
  leave (ok a) (throw e, w) = (throw e, w)
  leave (throw e') (throw e, w) = (terminated, w)
  leave terminated (throw e, w) = (terminated, w)
  leave r (terminated, w) = (terminated, w)

  abbrev pub exit_with {κ} : {A : Type κ} → Result A × W → M W (Unit {0}) → Result A × W
  exit_with (ok a, w) action = leave (ok a) (action w)
  exit_with (throw e, w) action = leave (throw e) (action w)
  exit_with (terminated, w) action = (terminated, w)

  -- `SCOPE_EXIT { action };` in front of the rest of a block, `body`.
  abbrev pub scope_exit {κ} : {A : Type κ} → M W (Unit {0}) → M W A → M W A
  scope_exit action body w = exit_with (body w) action

  abbrev pub fail_with {κ} : {A : Type κ} → Result A × W → M W (Unit {0}) → Result A × W
  fail_with (ok a, w) action = (ok a, w)
  fail_with (throw e, w) action = leave (throw e) (action w)
  fail_with (terminated, w) action = (terminated, w)

  -- `SCOPE_FAIL { action };`: the action runs if the rest throws.
  abbrev pub scope_fail {κ} : {A : Type κ} → M W (Unit {0}) → M W A → M W A
  scope_fail action body w = fail_with (body w) action
