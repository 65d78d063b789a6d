-- ===== src/Exception/Total.antt =====
-- Conditions on code that returns: it throws nothing, does not end the process, and this holds then.
use klib.Base.{◌≡◌, refl}
use klib.Exception.{Result, ok, throw, terminated, M, and_then, ◌>>=◌, leave, exit_with, scope_exit}

module _ {W : Type 0} where
  abbrev pub Returned : {A : Type 0} → (A → W → Type 0) → Result A × W → Type 0
  Returned Q (ok a, w) = Q a w
  Returned Q (throw e, w) = ⊥
  Returned Q (terminated, w) = ⊥

  abbrev pub Total : {A : Type 0} → (W → Type 0) → M W A → (A → W → Type 0) → Type 0
  Total P m Q = (w : W) → P w → Returned Q (m w)

  Returned-and_then :
      {A B : Type 0} (Q : A → W → Type 0) (Q' : B → W → Type 0) (r : Result A × W) (f : A → M W B)
      → Returned Q r
      → ((a : A) → Total (Q a) (f a) Q')
      → Returned Q' (and_then r f)
  Returned-and_then Q Q' (ok a, w) f h k = k a w h
  Returned-and_then Q Q' (throw e, w) f h k = absurd h
  Returned-and_then Q Q' (terminated, w) f h k = absurd h

  pub Total-bind :
      {A B : Type 0} (P : W → Type 0) (Q : A → W → Type 0) (Q' : B → W → Type 0) (m : M W A)
      (f : A → M W B)
      → Total P m Q
      → ((a : A) → Total (Q a) (f a) Q')
      → Total P (m >>= f) Q'
  Total-bind P Q Q' m f h k w p = Returned-and_then Q Q' (m w) f (h w p) k

  Returned-leave :
      {A : Type 0} (a : A) (Q : A → W → Type 0) (s : Result (Unit {0}) × W)
      → Returned (λ _. Q a) s
      → Returned Q (leave (ok a) s)
  Returned-leave a Q (ok _, w) h = h
  Returned-leave a Q (throw e, w) h = absurd h
  Returned-leave a Q (terminated, w) h = absurd h

  Returned-exit_with :
      {A : Type 0} (Q Q' : A → W → Type 0) (r : Result A × W) (action : M W (Unit {0}))
      → Returned Q r
      → ((a : A) → Total (Q a) action (λ _. Q' a))
      → Returned Q' (exit_with r action)
  Returned-exit_with Q Q' (ok a, w) action h k = Returned-leave a Q' (action w) (k a w h)
  Returned-exit_with Q Q' (throw e, w) action h k = absurd h
  Returned-exit_with Q Q' (terminated, w) action h k = absurd h

  -- The guard runs behind the body, and keeps the result.
  pub Total-scope_exit :
      {A : Type 0} (P : W → Type 0) (Q Q' : A → W → Type 0) (action : M W (Unit {0})) (body : M W A)
      → Total P body Q
      → ((a : A) → Total (Q a) action (λ _. Q' a))
      → Total P (scope_exit action body) Q'
  Total-scope_exit P Q Q' action body h k w p = Returned-exit_with Q Q' (body w) action (h w p) k

  -- The result and the state of code that returns.
  pub Returned-eq :
      {A : Type 0} (Q : A → W → Type 0) (r : Result A × W)
      → Returned Q r
      → (a : A) × (w : W) × (r ≡ (ok a, w)) × Q a w
  Returned-eq Q (ok a, w) h = (a, w, refl, h)
  Returned-eq Q (throw e, w) h = absurd h
  Returned-eq Q (terminated, w) h = absurd h

  pub Returned-weaken :
      {A : Type 0} (Q Q' : A → W → Type 0) (r : Result A × W)
      → ((a : A) (w : W) → Q a w → Q' a w)
      → Returned Q r
      → Returned Q' r
  Returned-weaken Q Q' (ok a, w) k h = k a w h
  Returned-weaken Q Q' (throw e, w) k h = absurd h
  Returned-weaken Q Q' (terminated, w) k h = absurd h
