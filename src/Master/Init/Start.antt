-- ===== src/Master/Init/Start.antt =====
-- The state in which the master starts.
use real_time_cyclic.Prelude.{
  ℕ, ◌<◌, ◌≡◌, refl, false, replicate, length, get_or, get_or-replicate, arith, ap, ◌∙◌, ℤ, pos,
  sym, subst, [], ◌%◌, ◌==ℤ◌, ==ℤ_iff,
}
use real_time_cyclic.Common.{
  Shmseg, ControlShm, zeroed_shmseg, max_slaves, no_pid, error_not_set_communication_cycle,
}
use real_time_cyclic.Table.{at, assign_idx}
use real_time_cyclic.Table.Probe.{probe_first}
use real_time_cyclic.Master.State.{segment}
use real_time_cyclic.Master.State.Tables.{TableOk}
use real_time_cyclic.Master.Init.{init, init_semaphores}
use real_time_cyclic.Master.Link.{init_slave_shmseg_shared_memory}
use real_time_cyclic.Master.Request.Errors.{Holds}

-- A segment that is ready to be claimed.
pub record IsFree (g : Shmseg) : Type 0 where
  pub unowned : g.pid ≡ no_pid
  pub unconnected : g.is_connected ≡ false
  pub stopped : g.cycle_started ≡ false
  pub no_request_out : g.sem_m_to_s_request ≡ 1
  pub no_request_in : g.sem_s_to_m_request ≡ 1
  pub no_cycle_time : g.communication_cycle_us ≡ error_not_set_communication_cycle
  pub no_errors : Holds [] g

unfoldable pub fresh : Shmseg
unfolding init_semaphores init_slave_shmseg_shared_memory zeroed_shmseg
fresh = init_semaphores (init_slave_shmseg_shared_memory zeroed_shmseg)

fresh-IsFree : IsFree fresh
unfolding fresh
fresh-IsFree = record {
  unowned = refl;
  unconnected = refl;
  stopped = refl;
  no_request_out = refl;
  no_request_in = refl;
  no_cycle_time = refl;
  no_errors = (refl, refl, omega arith);
}

module _ (own_pid : ℤ) (control : ControlShm) where
  table_replicated : (init own_pid control).shm.slave_shmseg ≡ replicate max_slaves fresh
  unfolding init fresh
  table_replicated = refl

  pub segment-fresh : (i : ℕ) → i < max_slaves → segment i (init own_pid control) ≡ fresh
  segment-fresh i h =
      ap (λ t. get_or t i zeroed_shmseg) table_replicated
      ∙ get_or-replicate max_slaves i fresh zeroed_shmseg h

  -- The master starts with every segment free, its request semaphores at 1, and no error in it.
  pub init-IsFree : (i : ℕ) → i < max_slaves → IsFree (segment i (init own_pid control))
  init-IsFree i h = subst IsFree (sym (segment-fresh i h)) fresh-IsFree

  -- The table that the master starts with is sound.
  pub init-TableOk : TableOk (init own_pid control).shm.slave_shmseg
  init-TableOk = record {
    full = ap length table_replicated;
    unique = λ i j hi hj used same. absurd (used (init-IsFree i hi).unowned);
    owned = λ i h on. ground (arith, (init-IsFree i h).unconnected);
    distinct = λ i j hi hj on_i on_j same. ground (arith, (init-IsFree i hi).unconnected);
  }

  -- The first process is given the segment at its pid modulo MAX_SLAVES.
  pub init-assign :
      (p : ℕ)
      → assign_idx (λ g. g.pid) zeroed_shmseg (pos p) (init own_pid control).shm.slave_shmseg
        ≡ at (p % max_slaves)
  unfolding assign_idx
  init-assign p =
      probe_first (λ g. g.pid ==ℤ no_pid) zeroed_shmseg 31 (p % max_slaves)
        (init own_pid control).shm.slave_shmseg
        ((==ℤ_iff (segment (p % max_slaves) (init own_pid control)).pid no_pid).1
          (init-IsFree (p % max_slaves) (omega arith)).unowned)
