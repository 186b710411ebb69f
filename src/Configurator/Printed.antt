-- ===== src/Configurator/Printed.antt =====
-- The rows of PRINT_SLAVE_DATA of src/configurator.c.
use real_time_cyclic.Prelude.{
  ℕ, zero, suc, ◌+◌, ◌<◌, ◌≡◌, ◌⊎◌, inl, inr, refl, ap, ◌∙◌, sym, arith, pos, ◌==ℤ◌, List, [], ◌∷◌,
  ◌++◌, some, get_or, if◌then◌else◌,
}
use real_time_cyclic.Common.{Shm, Shmseg, zeroed_shmseg, no_pid, max_slaves}
use real_time_cyclic.Table.{at}
use real_time_cyclic.Table.Laws.{Unique}
use real_time_cyclic.Table.Exact.{get_assigned_idx_exact}
use real_time_cyclic.Configurator.{CreatedSlave, blank, Config}
use real_time_cyclic.Configurator.Cycle.{get_assigned_shmseg_idx}
use real_time_cyclic.Configurator.Data.{
  Row, just_created, slave_data, data_of, rows_at, print_slave_data_by_pid, print_round, print_rows,
  print_slave_data, print_segments,
}

-- The row for one index.
unfoldable pub row_for : Shmseg → CreatedSlave → List Row
row_for g s =
    if g.pid ==ℤ no_pid
    then (if s.pid ==ℤ no_pid then [] else just_created s.pid ∷ [])
    else slave_data (data_of g.pid g) ∷ []

unfoldable pub rows_from : List Shmseg → List CreatedSlave → ℕ → ℕ → List Row
rows_from segments created zero i = []
rows_from segments created (suc rounds) i =
    row_for (get_or segments i zeroed_shmseg) (get_or created i blank)
    ++ rows_from segments created rounds (i + 1)

module _ (segments : List Shmseg) (created : List CreatedSlave)
    (unique : Unique (λ g. g.pid) zeroed_shmseg segments)
    (pids : (i : ℕ)
      → i < max_slaves
      → ((get_or segments i zeroed_shmseg).pid ≡ no_pid)
        ⊎ ((p : ℕ) × ((get_or segments i zeroed_shmseg).pid ≡ pos p))) where
  -- The pid of a segment is looked up at its own index.
  lookup_own :
      (i p : ℕ)
      → i < max_slaves
      → (get_or segments i zeroed_shmseg).pid ≡ pos p
      → get_assigned_shmseg_idx (pos p) segments ≡ at i
  unfolding get_assigned_shmseg_idx
  lookup_own i p lt e = elim (get_assigned_idx_exact (λ g. g.pid) zeroed_shmseg p segments) [
    | inl (j, found, hit, same) ↦
        found ∙ ap at (unique j i hit lt (λ k. ground arith) (same ∙ sym e))
    | inr (miss, absent) ↦ absurd (absent i lt e)
  ]

  print_round-own :
      (i : ℕ)
      → i < max_slaves
      → print_round segments (get_or segments i zeroed_shmseg) (get_or created i blank)
        ≡ some (row_for (get_or segments i zeroed_shmseg) (get_or created i blank))
  unfolding print_round print_slave_data_by_pid rows_at row_for
  print_round-own i lt = elim (pids i lt) [
    | inl free ↦ ground (arith, free)
    | inr (p, e) ↦ simp (e, lookup_own i p lt e) refl
  ]

  print_rows-own :
      (rounds i : ℕ)
      → i + rounds ≡ max_slaves
      → print_rows segments created rounds i ≡ some (rows_from segments created rounds i)
  unfolding print_rows rows_from
  print_rows-own zero i e = refl
  print_rows-own (suc rounds) i e =
      rw (print_round-own i (omega arith), print_rows-own rounds (i + 1) (omega arith)) refl

-- While no pid stands twice and every segment has no owner or a process, the command prints for each
-- index in order the data of the segment there, or else the created slave at that index of the
-- local table, if there is one.
pub print_slave_data-rows :
    (c : Config) (shm : Shm)
    → Unique (λ g. g.pid) zeroed_shmseg shm.slave_shmseg
    → ((i : ℕ)
        → i < max_slaves
        → ((get_or shm.slave_shmseg i zeroed_shmseg).pid ≡ no_pid)
          ⊎ ((p : ℕ) × ((get_or shm.slave_shmseg i zeroed_shmseg).pid ≡ pos p)))
    → c.shmp ≡ some shm
    → print_slave_data c ≡ some (rows_from shm.slave_shmseg c.created_slave max_slaves 0)
unfolding print_slave_data
print_slave_data-rows c shm unique pids attached =
    ap (λ s. print_segments s c.created_slave) attached
    ∙ print_rows-own shm.slave_shmseg c.created_slave unique pids max_slaves 0 refl
