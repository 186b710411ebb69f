-- ===== src/Table/Laws.antt =====
-- The table as a partial map from pids to indices: what the two searches promise each other.
use real_time_cyclic.Prelude.{
  ℕ, ◌%◌, ◌<◌, ◌≡◌, refl, ◌≢◌, true, List, arith, get_or, set, length, get_or-set_self,
  get_or-set_ne, ℤ, pos, negsuc, ◌==ℤ◌, ==ℤ_iff, ==ℤ_ne, ℕ_discrete, ap,
}
use real_time_cyclic.Common.{max_slaves, no_pid}
use real_time_cyclic.Table.{
  Slot, at, no_idx, out_of_bounds, first_idx, probe_from, assign_idx, get_assigned_idx,
}
use real_time_cyclic.Table.Probe.{
  probe_hit, probe_in_bounds, probe_miss_all, probe_congr, probe_after_set,
}

mod-lt : (p : ℕ) → p % max_slaves < max_slaves
mod-lt p = omega arith

first_idx-lt : (pid : ℤ) {i : ℕ} → first_idx pid ≡ at i → i < max_slaves
unfolding first_idx
first_idx-lt (pos p) e = ground (arith, mod-lt p)
first_idx-lt (negsuc p) e = ground arith

module _ {A : Type 0} (pid_of : A → ℤ) (blank : A) where
  -- Two pids at one index are one.
  abbrev pub Unique : List A → Type 0
  Unique table =
      (i j : ℕ)
      → i < max_slaves
      → j < max_slaves
      → pid_of (get_or table i blank) ≢ no_pid
      → pid_of (get_or table i blank) ≡ pid_of (get_or table j blank)
      → i ≡ j

  pub get_assigned_idx_hit :
      (p : ℕ) (table : List A) {i : ℕ}
      → get_assigned_idx pid_of blank (pos p) table ≡ at i
      → (i < max_slaves) × (pid_of (get_or table i blank) ≡ pos p)
  unfolding get_assigned_idx
  get_assigned_idx_hit p table {i} e =
      let found : (i < max_slaves) × ((pid_of (get_or table i blank) ==ℤ pos p) ≡ true) =
        probe_hit (λ a. pid_of a ==ℤ pos p) blank max_slaves (p % max_slaves) table e (mod-lt p) in
      (found.0, (==ℤ_iff (pid_of (get_or table i blank)) (pos p)).0 found.1)

  pub get_assigned_idx_miss :
      (p : ℕ) (table : List A)
      → get_assigned_idx pid_of blank (pos p) table ≡ no_idx
      → (j : ℕ) → j < max_slaves
      → pid_of (get_or table j blank) ≢ pos p
  unfolding get_assigned_idx
  get_assigned_idx_miss p table e j h same = ground (
    arith,
    probe_miss_all (λ a. pid_of a ==ℤ pos p) blank (p % max_slaves) table e (mod-lt p) j h,
    (==ℤ_iff (pid_of (get_or table j blank)) (pos p)).1 same,
  )

  pub assign_idx_hit :
      (p : ℕ) (table : List A) {i : ℕ}
      → assign_idx pid_of blank (pos p) table ≡ at i
      → (i < max_slaves) × (pid_of (get_or table i blank) ≡ no_pid)
  unfolding assign_idx
  assign_idx_hit p table {i} e =
      let found : (i < max_slaves) × ((pid_of (get_or table i blank) ==ℤ no_pid) ≡ true) =
        probe_hit (λ a. pid_of a ==ℤ no_pid) blank max_slaves (p % max_slaves) table e (mod-lt p) in
      (found.0, (==ℤ_iff (pid_of (get_or table i blank)) no_pid).0 found.1)

  -- Assignment fails only on a full table.
  pub assign_idx_miss :
      (p : ℕ) (table : List A)
      → assign_idx pid_of blank (pos p) table ≡ no_idx
      → (j : ℕ) → j < max_slaves
      → pid_of (get_or table j blank) ≢ no_pid
  unfolding assign_idx
  assign_idx_miss p table e j h same = ground (
    arith,
    probe_miss_all (λ a. pid_of a ==ℤ no_pid) blank (p % max_slaves) table e (mod-lt p) j h,
    (==ℤ_iff (pid_of (get_or table j blank)) no_pid).1 same,
  )

  -- For a pid that is not negative neither search reads outside the table.
  pub searches_in_bounds :
      (p : ℕ) (table : List A)
      → (get_assigned_idx pid_of blank (pos p) table ≢ out_of_bounds)
        × (assign_idx pid_of blank (pos p) table ≢ out_of_bounds)
  unfolding get_assigned_idx assign_idx
  searches_in_bounds p table = (
    probe_in_bounds (λ a. pid_of a ==ℤ pos p) blank max_slaves (p % max_slaves) table,
    probe_in_bounds (λ a. pid_of a ==ℤ no_pid) blank max_slaves (p % max_slaves) table,
  )

  -- The negative pid NO_PID is looked up at index -1.
  pub get_assigned_idx-no_pid :
      (table : List A) → get_assigned_idx pid_of blank no_pid table ≡ out_of_bounds
  unfolding get_assigned_idx
  get_assigned_idx-no_pid table = refl

  -- A search for a pid that neither the old nor the new entry has is not disturbed by a write.
  pub get_assigned_idx-set_ne :
      (q : ℕ) (table : List A) (i : ℕ) (a : A)
      → length table ≡ max_slaves
      → i < max_slaves
      → pid_of (get_or table i blank) ≢ pos q
      → pid_of a ≢ pos q
      → get_assigned_idx pid_of blank (pos q) (set table i a)
        ≡ get_assigned_idx pid_of blank (pos q) table
  unfolding get_assigned_idx
  get_assigned_idx-set_ne q table i a full h old new =
      probe_congr (λ x. pid_of x ==ℤ pos q) (λ x. pid_of x ==ℤ pos q) blank (set table i a) table
        same max_slaves (q % max_slaves) (mod-lt q)
    where
      same :
          (j : ℕ)
          → j < max_slaves
          → (pid_of (get_or (set table i a) j blank) ==ℤ pos q)
            ≡ (pid_of (get_or table j blank) ==ℤ pos q)
      same j lt = elim (ℕ_discrete i j) [
        | yes e ↦ rw (
          ← e,
          get_or-set_self table i a blank (omega arith),
          ==ℤ_ne (pid_of a) (pos q) new,
          ==ℤ_ne (pid_of (get_or table i blank)) (pos q) old,
        )
        | no n ↦ ap (λ x. pid_of x ==ℤ pos q) (get_or-set_ne table i j a blank n)
      ]

  -- Nor is any search disturbed by a write that keeps the pid.
  pub get_assigned_idx-set_same :
      (pid : ℤ) (table : List A) (i : ℕ) (a : A)
      → length table ≡ max_slaves
      → i < max_slaves
      → pid_of a ≡ pid_of (get_or table i blank)
      → get_assigned_idx pid_of blank pid (set table i a) ≡ get_assigned_idx pid_of blank pid table
  unfolding get_assigned_idx
  get_assigned_idx-set_same pid table i a full h keep = from_first (first_idx pid) refl
    where
      same :
          (j : ℕ)
          → j < max_slaves
          → (pid_of (get_or (set table i a) j blank) ==ℤ pid)
            ≡ (pid_of (get_or table j blank) ==ℤ pid)
      same j lt = elim (ℕ_discrete i j) [
        | yes e ↦ rw (← e, get_or-set_self table i a blank (omega arith), keep)
        | no n ↦ ap (λ x. pid_of x ==ℤ pid) (get_or-set_ne table i j a blank n)
      ]

      from_first :
          (s : Slot)
          → first_idx pid ≡ s
          → probe_from (λ x. pid_of x ==ℤ pid) blank s (set table i a)
            ≡ probe_from (λ x. pid_of x ==ℤ pid) blank s table
      from_first (at k) e =
          probe_congr (λ x. pid_of x ==ℤ pid) (λ x. pid_of x ==ℤ pid) blank (set table i a) table
            same max_slaves k (first_idx-lt pid e)
      from_first no_idx e = refl
      from_first out_of_bounds e = refl

  -- What an assigned pid is found by, once it is written at the index that was assigned.
  pub get_assigned_idx-assign :
      (p : ℕ) (table : List A) (i : ℕ) (a : A)
      → length table ≡ max_slaves
      → pid_of a ≡ pos p
      → assign_idx pid_of blank (pos p) table ≡ at i
      → get_assigned_idx pid_of blank (pos p) table ≡ no_idx
      → get_assigned_idx pid_of blank (pos p) (set table i a) ≡ at i
  unfolding get_assigned_idx assign_idx
  get_assigned_idx-assign p table i a full mine found absent =
      probe_after_set (λ x. pid_of x ==ℤ no_pid) (λ x. pid_of x ==ℤ pos p) blank table a i full
        ((==ℤ_iff (pid_of a) (pos p)).1 mine) max_slaves (p % max_slaves) (mod-lt p) found absent
