-- ===== src/Os/Handler.antt =====
-- The monad of the handlers: what becomes of a handler, its statements one after the other, and what is
-- said of its end.
use real_time_cyclic.Prelude.{ℕ, zero, suc, Bool, true, false, Option, none, some}

-- A handler returns; or it sleeps in `sem_wait` on a semaphore at 0, in the state in which it went
-- to sleep; or it reads or writes outside an array or through a null pointer, or a signed number
-- overflows.
pub data Outcome (S A : Type 0) : Type 0 where
  done : A → S → Outcome S A
  blocked : S → Outcome S A
  fault : Outcome S A

abbrev pub M : Type 0 → Type 0 → Type 0
M S A = S → Outcome S A

infixl 5 ◌>>=◌ ◌>>◌
abbrev pub ◌>>=◌ : {S A B : Type 0} → M S A → (A → M S B) → M S B
◌>>=◌ m f s = elim (m s) [ done a t ↦ f a t | blocked t ↦ blocked t | fault ↦ fault ]

abbrev pub ◌>>◌ : {S B : Type 0} → M S (Unit {0}) → M S B → M S B
m >> k = m >>= λ _. k

module _ {S : Type 0} where
  abbrev pub pure : {A : Type 0} → A → M S A
  pure a s = done a s

  abbrev pub get : M S S
  get s = done s s

  abbrev pub modify : (S → S) → M S (Unit {0})
  modify f s = done tt (f s)

  abbrev pub crash : {A : Type 0} → M S A
  crash s = fault

  -- `none` is a write outside a buffer.
  abbrev pub or_crash : {A B : Type 0} → Option A → (A → M S B) → M S B
  or_crash none k s = fault
  or_crash (some a) k s = k a s

  -- `if (failed) then …;` with nothing else to do.
  abbrev pub when : Bool → M S (Unit {0}) → M S (Unit {0})
  when true m s = m s
  when false m s = done tt s

  -- A call that reports a failure by a value other than 0, and changes the state if it succeeds.
  abbrev pub attempt : Bool → (S → S) → M S Bool
  attempt true f s = done true s
  attempt false f s = done false (f s)

  -- `sem_wait` on a semaphore with the value that is given.
  abbrev pub attempt_wait : Bool → ℕ → (ℕ → S → S) → M S Bool
  attempt_wait true v put s = done true s
  attempt_wait false zero put s = blocked s
  attempt_wait false (suc v) put s = done false (put v s)

  -- A conditional between statements.
  infix 1 given◌run◌otherwise◌
  abbrev pub given◌run◌otherwise◌ : {A : Type 0} → Bool → M S A → M S A → M S A
  given◌run◌otherwise◌ true m k s = m s
  given◌run◌otherwise◌ false m k s = k s

  -- The last state that a handler reaches.
  abbrev pub final_state : {A : Type 0} → S → Outcome S A → S
  final_state s (done a t) = t
  final_state s (blocked t) = t
  final_state s fault = s

  -- The handler returns, and what it returns meets `P`.
  abbrev pub Returns : {A : Type 0} → (A → S → Type 0) → Outcome S A → Type 0
  Returns P (done a t) = P a t
  Returns P (blocked t) = ⊥
  Returns P fault = ⊥

  -- The last state of a handler, whether it returns or sleeps, meets `P`.
  abbrev pub Ensures : {A : Type 0} → (S → Type 0) → Outcome S A → Type 0
  Ensures P (done a t) = P t
  Ensures P (blocked t) = P t
  Ensures P fault = Unit

  -- The handler does not fault, and its last state meets `P`.
  abbrev pub Survives : {A : Type 0} → (S → Type 0) → Outcome S A → Type 0
  Survives P (done a t) = P t
  Survives P (blocked t) = P t
  Survives P fault = ⊥

  -- What holds when the handler returns, and what when it sleeps.
  abbrev pub Leaves : {A : Type 0} → (S → Type 0) → (S → Type 0) → Outcome S A → Type 0
  Leaves P Q (done a t) = P t
  Leaves P Q (blocked t) = Q t
  Leaves P Q fault = Unit
