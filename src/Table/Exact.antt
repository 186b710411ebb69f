-- ===== src/Table/Exact.antt =====
-- The two searches decide what they are asked for.
use real_time_cyclic.Prelude.{ℕ, ◌<◌, ◌≡◌, ◌≢◌, ◌⊎◌, inl, inr, List, get_or, ℤ, pos}
use real_time_cyclic.Common.{max_slaves, no_pid}
use real_time_cyclic.Table.{Slot-cases, at, no_idx, assign_idx, get_assigned_idx}
use real_time_cyclic.Table.Laws.{
  get_assigned_idx_hit, get_assigned_idx_miss, assign_idx_hit, assign_idx_miss, searches_in_bounds,
}

module _ {A : Type 0} (pid_of : A → ℤ) (blank : A) (p : ℕ) (table : List A) where
  -- The lookup of a pid that is not negative returns an index of the table that holds the pid, or
  -- NO_IDX, and then no index of the table holds it.
  pub get_assigned_idx_exact :
      ((i : ℕ) × (get_assigned_idx pid_of blank (pos p) table ≡ at i)
        × (i < max_slaves)
        × (pid_of (get_or table i blank) ≡ pos p))
      ⊎ ((get_assigned_idx pid_of blank (pos p) table ≡ no_idx)
          × ((j : ℕ) → j < max_slaves → pid_of (get_or table j blank) ≢ pos p))
  get_assigned_idx_exact = elim (Slot-cases (get_assigned_idx pid_of blank (pos p) table)) [
    | inl (i, e) ↦
        let hit : (i < max_slaves) × (pid_of (get_or table i blank) ≡ pos p) =
          get_assigned_idx_hit pid_of blank p table e in
        inl (i, e, hit.0, hit.1)
    | inr (inl e) ↦ inr (e, get_assigned_idx_miss pid_of blank p table e)
    | inr (inr e) ↦ absurd ((searches_in_bounds pid_of blank p table).0 e)
  ]

  -- The search for a free index returns one, or NO_IDX, and then every index of the table is taken.
  pub assign_idx_exact :
      ((i : ℕ) × (assign_idx pid_of blank (pos p) table ≡ at i)
        × (i < max_slaves)
        × (pid_of (get_or table i blank) ≡ no_pid))
      ⊎ ((assign_idx pid_of blank (pos p) table ≡ no_idx)
          × ((j : ℕ) → j < max_slaves → pid_of (get_or table j blank) ≢ no_pid))
  assign_idx_exact = elim (Slot-cases (assign_idx pid_of blank (pos p) table)) [
    | inl (i, e) ↦
        let hit : (i < max_slaves) × (pid_of (get_or table i blank) ≡ no_pid) =
          assign_idx_hit pid_of blank p table e in
        inl (i, e, hit.0, hit.1)
    | inr (inl e) ↦ inr (e, assign_idx_miss pid_of blank p table e)
    | inr (inr e) ↦ absurd ((searches_in_bounds pid_of blank p table).1 e)
  ]
