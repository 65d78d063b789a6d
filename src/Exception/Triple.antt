-- ===== src/Exception/Triple.antt =====
-- Conditions on code that may throw: what holds of the state when it returns and when it throws.
use klib.Base.{Bool, true, false}
use klib.Exception.{
  Error, Result, ok, throw, terminated, M, and_then, ◌>>=◌, throw_if, leave, exit_with, scope_exit,
}

module _ {W : Type 0} where
  -- `Q` holds of the state of a normal return, `R` of that of an exception.
  abbrev pub Ends : {A : Type 0} → (A → W → Type 0) → (W → Type 0) → Result A × W → Type 0
  Ends Q R (ok a, w) = Q a w
  Ends Q R (throw e, w) = R w
  Ends Q R (terminated, w) = Unit

  abbrev pub Triple : {A : Type 0} → (W → Type 0) → M W A → (A → W → Type 0) → (W → Type 0) → Type 0
  Triple P m Q R = (w : W) → P w → Ends Q R (m w)

  Ends-and_then :
      {A B : Type 0} (Q : A → W → Type 0) (R : W → Type 0) (Q' : B → W → Type 0) (r : Result A × W)
      (f : A → M W B)
      → Ends Q R r
      → ((a : A) → Triple (Q a) (f a) Q' R)
      → Ends Q' R (and_then r f)
  Ends-and_then Q R Q' (ok a, w) f h k = k a w h
  Ends-and_then Q R Q' (throw e, w) f h k = h
  Ends-and_then Q R Q' (terminated, w) f h k = tt

  pub Triple-bind :
      {A B : Type 0} (P : W → Type 0) (Q : A → W → Type 0) (R : W → Type 0) (Q' : B → W → Type 0)
      (m : M W A) (f : A → M W B)
      → Triple P m Q R
      → ((a : A) → Triple (Q a) (f a) Q' R)
      → Triple P (m >>= f) Q' R
  Triple-bind P Q R Q' m f h k w p = Ends-and_then Q R Q' (m w) f (h w p) k

  Ends-leave :
      {A : Type 0} (Q : A → W → Type 0) (T : W → Type 0) (a : A) (s : Result (Unit {0}) × W)
      → Ends (λ _. Q a) T s
      → Ends Q T (leave (ok a) s)
  Ends-leave Q T a (ok _, w) h = h
  Ends-leave Q T a (throw e, w) h = h
  Ends-leave Q T a (terminated, w) h = tt

  Ends-leave_thrown :
      {A : Type 0} (Q : A → W → Type 0) (T : W → Type 0) (e : Error) (s : Result (Unit {0}) × W)
      → Ends (λ _. T) T s
      → Ends Q T (leave (throw e) s)
  Ends-leave_thrown Q T e (ok _, w) h = h
  Ends-leave_thrown Q T e (throw e', w) h = tt
  Ends-leave_thrown Q T e (terminated, w) h = tt

  Ends-exit_with :
      {A : Type 0} (Q Q' : A → W → Type 0) (R T : W → Type 0) (r : Result A × W)
      (action : M W (Unit {0}))
      → Ends Q R r
      → ((a : A) → Triple (Q a) action (λ _. Q' a) T)
      → Triple R action (λ _. T) T
      → Ends Q' T (exit_with r action)
  Ends-exit_with Q Q' R T (ok a, w) action h k l = Ends-leave Q' T a (action w) (k a w h)
  Ends-exit_with Q Q' R T (throw e, w) action h k l = Ends-leave_thrown Q' T e (action w) (l w h)
  Ends-exit_with Q Q' R T (terminated, w) action h k l = tt

  -- The guard's action runs both ways out of the body, and keeps the result.
  Triple-exit_with :
      {A : Type 0} (P : W → Type 0) (Q Q' : A → W → Type 0) (R T : W → Type 0)
      (action : M W (Unit {0})) (body : M W A)
      → Triple P body Q R
      → ((a : A) → Triple (Q a) action (λ _. Q' a) T)
      → Triple R action (λ _. T) T
      → Triple P (scope_exit action body) Q' T
  Triple-exit_with P Q Q' R T action body h k l w p =
      Ends-exit_with Q Q' R T (body w) action (h w p) k l

  pub Triple-scope_exit :
      {A : Type 0} (P Q T : W → Type 0) (action : M W (Unit {0})) (body : M W A)
      → Triple P body (λ _. Q) Q
      → Triple Q action (λ _. T) T
      → Triple P (scope_exit action body) (λ _. T) T
  Triple-scope_exit P Q T action body h k =
      Triple-exit_with P (λ _. Q) (λ _. T) Q T action body h (λ _. k) k

  pub Triple-throw_if :
      (P : W → Type 0) (bad : Bool) (e : Error) → Triple P (throw_if bad e) (λ _. P) P
  Triple-throw_if P true e w p = p
  Triple-throw_if P false e w p = p

  -- What preserves a condition both ways.
  abbrev pub Keeps : {A : Type 0} → (W → Type 0) → M W A → Type 0
  Keeps P m = Triple P m (λ _. P) P

  pub Keeps-bind :
      {A B : Type 0} (P : W → Type 0) (m : M W A) (f : A → M W B)
      → Keeps P m
      → ((a : A) → Keeps P (f a))
      → Keeps P (m >>= f)
  Keeps-bind P m f h k = Triple-bind P (λ _. P) P (λ _. P) m f h k
