-- ===== src/Table.antt =====
-- The open-addressing search that src/master.c, src/slave.c and src/configurator.c share, each with
-- its own copy: start at pid % MAX_SLAVES, step by one modulo MAX_SLAVES, at most MAX_SLAVES times.
pub mod Probe
pub mod Laws
pub mod Exact
pub mod View
use real_time_cyclic.Prelude.{
  ℕ, zero, suc, ◌+◌, ◌%◌, Bool, List, ◌==◌, ℤ, pos, negsuc, if◌then◌else◌, get_or, ◌==ℤ◌, ◌≡◌, refl,
  ◌⊎◌, inl, inr,
}
use real_time_cyclic.Common.{max_slaves, no_pid}

-- What a search returns: an index, NO_IDX, or a read outside the table (`pid % MAX_SLAVES` is
-- negative for a negative pid that is no multiple of MAX_SLAVES).
pub data Slot : Type 0 where
  at : ℕ → Slot
  no_idx out_of_bounds : Slot

pub Slot-cases : (s : Slot) → ((i : ℕ) × (s ≡ at i)) ⊎ (s ≡ no_idx) ⊎ (s ≡ out_of_bounds)
Slot-cases (at i) = inl (i, refl)
Slot-cases no_idx = inr (inl refl)
Slot-cases out_of_bounds = inr (inr refl)

-- `pid % MAX_SLAVES` of C, whose sign is that of pid.
unfoldable pub first_idx : ℤ → Slot
first_idx (pos p) = at (p % max_slaves)
first_idx (negsuc p) = if suc p % max_slaves == 0 then at 0 else out_of_bounds

module _ {A : Type 0} (test : A → Bool) (blank : A) where
  -- `for (i = 0; i < rounds; ++i)`: return the first index that passes the test.
  unfoldable pub probe : ℕ → ℕ → List A → Slot
  probe zero idx table = no_idx
  probe (suc rounds) idx table =
      if test (get_or table idx blank) then at idx else probe rounds ((idx + 1) % max_slaves) table

  unfoldable pub probe_from : Slot → List A → Slot
  probe_from (at idx) table = probe max_slaves idx table
  probe_from no_idx table = no_idx
  probe_from out_of_bounds table = out_of_bounds

-- The two searches over a table whose entries have a pid.
module _ {A : Type 0} (pid_of : A → ℤ) (blank : A) where
  unfoldable pub assign_idx : ℤ → List A → Slot
  unfolding probe_from first_idx
  assign_idx pid table = probe_from (λ a. pid_of a ==ℤ no_pid) blank (first_idx pid) table

  unfoldable pub get_assigned_idx : ℤ → List A → Slot
  unfolding probe_from first_idx
  get_assigned_idx pid table = probe_from (λ a. pid_of a ==ℤ pid) blank (first_idx pid) table
