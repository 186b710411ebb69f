-- ===== src/Configurator/AutomaticTest/Overrun.antt =====
-- AUTOMATIC_TEST of src/configurator.c with more slaves than the table has entries for.
use real_time_cyclic.Prelude.{
  ℕ, zero, suc, ◌+◌, ◌<◌, ◌≡◌, refl, ap, ◌∙◌, arith, ℤ, pos, false, some, ◌∷◌, set, length,
  length-set,
}
use real_time_cyclic.Common.{max_slaves}
use real_time_cyclic.Table.{Slot, at, no_idx, out_of_bounds, assign_idx}
use real_time_cyclic.Table.Laws.{assign_idx_hit}
use real_time_cyclic.Os.{Os, fault, bind-fault, ◌>>◌}
use real_time_cyclic.Configurator.Input.{buffer_of, scan_int}
use real_time_cyclic.Configurator.{
  CreatedSlave, blank, Config, write_local, assign_local_idx, register_slave_locally,
}
use real_time_cyclic.Configurator.Menu.{spawn}
use real_time_cyclic.Configurator.Cycle.{positive}
use real_time_cyclic.Configurator.AutomaticTest.{
  TestInput, test_name, test_available, spawn_slaves, after_spawn, run_test, automatic_test_case,
}
use real_time_cyclic.Configurator.Entries.{taken, taken-set-blank, taken-le}

spawn_slaves-overrun :
    (fork_pid : ℕ → ℤ) (f : ℕ → ℕ) (rounds i : ℕ) (c : Config)
    → ((k : ℕ) → fork_pid k ≡ pos (f k))
    → length c.created_slave ≡ max_slaves
    → max_slaves < taken c.created_slave + rounds
    → spawn_slaves fork_pid rounds i c ≡ fault
unfolding spawn_slaves spawn register_slave_locally assign_local_idx write_local
spawn_slaves-overrun fork_pid f zero i c forks full many =
    absurd (omega (arith, taken-le c.created_slave))
spawn_slaves-overrun fork_pid f (suc rounds) i c forks full many = rw (forks i) (
    by_slot (assign_idx (λ s. s.pid) blank (pos (f i)) c.created_slave) refl
      (λ d. spawn_slaves-overrun fork_pid f rounds (i + 1) d forks))
  where
    slave : CreatedSlave
    slave = record { pid = pos (f i); connected = false }

    -- The state before the write to the table.
    before : Config
    before = record c {
      created_slaves_number = suc c.created_slaves_number;
      spawned =
          record { pid = pos (f i); name = test_name; parameters = test_available } ∷ c.spawned;
    }

    by_slot :
        (s : Slot)
        → assign_idx (λ s. s.pid) blank (pos (f i)) c.created_slave ≡ s
        → ((d : Config)
            → length d.created_slave ≡ max_slaves
            → max_slaves < taken d.created_slave + rounds
            → spawn_slaves fork_pid rounds (i + 1) d ≡ fault)
        → (write_local s (λ _. slave) >> spawn_slaves fork_pid rounds (i + 1)) before ≡ fault
    by_slot (at j) e next =
        let hit = assign_idx_hit (λ s. s.pid) blank (f i) c.created_slave e in
        next (record before { created_slave = set c.created_slave j slave })
          (length-set c.created_slave j slave ∙ full)
          (omega (
            arith,
            many,
            taken-set-blank c.created_slave j slave (omega (arith, hit.0, full)) hit.1
                (λ e. ground arith),
          ))
    by_slot no_idx e next = refl
    by_slot out_of_bounds e next = refl

-- The number of slaves is not compared with the free entries of the table: when it is larger, the
-- configurator writes outside the table, whatever the other processes do.
pub automatic_test_case-overrun :
    (os : Os) (t : TestInput) (f : ℕ → ℕ) (num_slaves : ℕ) (c : Config)
    → ((k : ℕ) → t.fork_pid k ≡ pos (f k))
    → length c.created_slave ≡ max_slaves
    → positive (scan_int (buffer_of t.line)) ≡ some num_slaves
    → max_slaves < taken c.created_slave + num_slaves
    → automatic_test_case os t c ≡ fault
unfolding automatic_test_case
automatic_test_case-overrun os t f num_slaves c forks full typed many =
    ap (λ n. run_test os t n c) typed
    ∙ bind-fault (spawn_slaves t.fork_pid num_slaves 0) (λ _. after_spawn os t) c
        (spawn_slaves-overrun t.fork_pid f num_slaves 0 c forks full many)
