-- ===== src/Os/Laws.antt =====
-- What holds of parts of a handler holds of the whole.
use mathlib.Core.Path.{◌≡◌, refl, ap}
use real_time_cyclic.Os.Handler.{
  Outcome, done, blocked, fault, M, ◌>>=◌, final_state, Returns, Ensures, Survives, Leaves,
}

-- A statement about a first part and one about the rest give one about both.
pub Ensures-bind :
    {S A B : Type 0} (P Q : S → Type 0) (m : M S A) (f : A → M S B) (s : S)
    → ((t : S) → P t → Q t)
    → ((a : A) (t : S) → P t → Ensures Q (f a t))
    → Ensures P (m s)
    → Ensures Q ((m >>= f) s)
Ensures-bind P Q m f s sleep rest h = by_outcome (m s) h
  where
    by_outcome :
        (o : Outcome _ _)
        → Ensures P o
        → Ensures Q (elim o [ done a t ↦ f a t | blocked t ↦ blocked t | fault ↦ fault ])
    by_outcome (done a t) k = rest a t k
    by_outcome (blocked t) k = sleep t k
    by_outcome fault k = tt

-- Two statements about the last state are one about it.
pub Ensures-and :
    {S A : Type 0} (P Q : S → Type 0) (o : Outcome S A)
    → Ensures P o
    → Ensures Q o
    → Ensures (λ s. P s × Q s) o
Ensures-and P Q (done a s) p q = (p, q)
Ensures-and P Q (blocked s) p q = (p, q)
Ensures-and P Q fault p q = tt

-- A first part that returns, and a rest that does from there, return.
pub Returns-bind :
    {S A B : Type 0} (P : A → S → Type 0) (Q : B → S → Type 0) (m : M S A) (f : A → M S B) (s : S)
    → ((a : A) (t : S) → P a t → Returns Q (f a t))
    → Returns P (m s)
    → Returns Q ((m >>= f) s)
Returns-bind P Q m f s rest h = by_outcome (m s) h
  where
    by_outcome :
        (o : Outcome _ _)
        → Returns P o
        → Returns Q (elim o [ done a t ↦ f a t | blocked t ↦ blocked t | fault ↦ fault ])
    by_outcome (done a t) h = rest a t h
    by_outcome (blocked t) h = elim h [ ]
    by_outcome fault h = elim h [ ]

pub Ensures-map :
    {S A : Type 0} (P Q : S → Type 0) (o : Outcome S A)
    → ((s : S) → P s → Q s)
    → Ensures P o
    → Ensures Q o
Ensures-map P Q (done a s) f h = f s h
Ensures-map P Q (blocked s) f h = f s h
Ensures-map P Q fault f h = tt

-- What holds of the last state of a handler that has not faulted, and of the first state.
pub final-Ensures :
    {S A : Type 0} (P : S → Type 0) (s : S) (o : Outcome S A)
    → P s
    → Ensures P o
    → P (final_state s o)
final-Ensures P s (done a t) h k = k
final-Ensures P s (blocked t) h k = k
final-Ensures P s fault h k = h

pub Survives-Ensures :
    {S A : Type 0} (P : S → Type 0) (o : Outcome S A) → Survives P o → Ensures P o
Survives-Ensures P (done a s) h = h
Survives-Ensures P (blocked s) h = h
Survives-Ensures P fault h = tt

pub Survives-bind :
    {S A B : Type 0} (P Q : S → Type 0) (m : M S A) (f : A → M S B) (s : S)
    → ((t : S) → P t → Q t)
    → ((a : A) (t : S) → P t → Survives Q (f a t))
    → Survives P (m s)
    → Survives Q ((m >>= f) s)
Survives-bind P Q m f s sleep rest h = by_outcome (m s) h
  where
    by_outcome :
        (o : Outcome _ _)
        → Survives P o
        → Survives Q (elim o [ done a t ↦ f a t | blocked t ↦ blocked t | fault ↦ fault ])
    by_outcome (done a t) k = rest a t k
    by_outcome (blocked t) k = sleep t k
    by_outcome fault k = elim k [ ]

pub Returns-map :
    {S A : Type 0} (P Q : A → S → Type 0) (o : Outcome S A)
    → ((a : A) (s : S) → P a s → Q a s)
    → Returns P o
    → Returns Q o
Returns-map P Q (done a s) f h = f a s h
Returns-map P Q (blocked s) f h = h
Returns-map P Q fault f h = h

-- What follows a part that returns.
pub bind-done :
    {S A B : Type 0} (m : M S A) (f : A → M S B) (s t : S) (a : A)
    → m s ≡ done a t
    → (m >>= f) s ≡ f a t
bind-done m f s t a e =
    ap (λ o. elim o [ done b u ↦ f b u | blocked u ↦ blocked u | fault ↦ fault ]) e

pub bind-fault :
    {S A B : Type 0} (m : M S A) (f : A → M S B) (s : S) → m s ≡ fault → (m >>= f) s ≡ fault
bind-fault m f s e = ap (λ o. elim o [ done b u ↦ f b u | blocked u ↦ blocked u | fault ↦ fault ]) e

pub Leaves-bind :
    {S A B : Type 0} (P D Q : S → Type 0) (m : M S A) (f : A → M S B) (s : S)
    → ((a : A) (t : S) → P t → Leaves D Q (f a t))
    → Leaves P Q (m s)
    → Leaves D Q ((m >>= f) s)
Leaves-bind P D Q m f s rest h = by_outcome (m s) h
  where
    by_outcome :
        (o : Outcome _ _)
        → Leaves P Q o
        → Leaves D Q (elim o [ done a t ↦ f a t | blocked t ↦ blocked t | fault ↦ fault ])
    by_outcome (done a t) k = rest a t k
    by_outcome (blocked t) k = k
    by_outcome fault k = tt

-- What a handler returns, and where it leaves the state.
pub returned :
    {S A : Type 0} (P : A → S → Type 0) (o : Outcome S A)
    → Returns P o
    → (a : A) × (t : S) × (o ≡ done a t) × P a t
returned P (done a t) h = (a, t, refl, h)
returned P (blocked t) h = absurd h
returned P fault h = absurd h

pub Survives-map :
    {S A : Type 0} (P Q : S → Type 0) (o : Outcome S A)
    → ((s : S) → P s → Q s)
    → Survives P o
    → Survives Q o
Survives-map P Q (done a s) f h = f s h
Survives-map P Q (blocked s) f h = f s h
Survives-map P Q fault f h = h
