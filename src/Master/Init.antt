-- ===== src/Master/Init.antt =====
-- src/master.c: `init_shared_memory` and `init_signal_semaphores`, on memory that is attached and
-- semaphores that can be initialised, and the signal handler of SIGUSR1.
pub mod Start
pub mod Process
pub mod Threads
use real_time_cyclic.Prelude.{ℕ, zero, suc, ◌+◌, ℤ, List, [], ◌∷◌, map, replicate, get_or, set}
use real_time_cyclic.Common.{Shm, Shmseg, Signal, sigusr1, ControlShm, zeroed_shmseg, max_slaves}
use real_time_cyclic.Table.{Slot, at, no_idx, out_of_bounds, get_assigned_idx}
use real_time_cyclic.Os.{Os, sig_semaphore, M, ◌>>=◌, ◌>>◌, pure, get, crash, attempt}
use real_time_cyclic.Master.Link.{init_slave_shmseg_shared_memory}
use real_time_cyclic.Master.State.{Master}

-- After `memset(self.shmp, 0, sizeof(shm_t))`.
unfoldable pub init_shared_memory : ℤ → Shm
unfolding init_slave_shmseg_shared_memory zeroed_shmseg
init_shared_memory own_pid = record {
  slave_shmseg = map init_slave_shmseg_shared_memory (replicate max_slaves zeroed_shmseg);
  master_pid = own_pid;
}

unfoldable pub init_semaphores : Shmseg → Shmseg
init_semaphores g = record g { sem_s_to_m_request = 1; sem_m_to_s_request = 1 }

unfoldable pub init_signal_semaphores : Master → Master
unfolding init_semaphores
init_signal_semaphores m = record m {
  shm = record (m.shm) { slave_shmseg = map init_semaphores m.shm.slave_shmseg };
  sig_semaphore = replicate max_slaves 0;
}

-- The state that `init` leaves, over the control segment that the configurator made.
unfoldable pub init : ℤ → ControlShm → Master
unfolding init_shared_memory init_signal_semaphores
init own_pid control = init_signal_semaphores (record {
  shm = init_shared_memory own_pid;
  control = control;
  sig_semaphore = [];
  sent = [];
  log = [];
  threads = [];
})

-- `sem_post(&self.sig_semaphore[i])`.
unfoldable pub count_signal : Os → Slot → M Master (Unit {0})
count_signal os no_idx = pure tt
count_signal os out_of_bounds = crash
count_signal os (at i) = do
  failed ←
      attempt (os.sem_post_fails sig_semaphore)
        λ m. record m { sig_semaphore = set m.sig_semaphore i (get_or m.sig_semaphore i 0 + 1) }
  pure tt

-- The handler of SIGUSR1, which counts the signal for the sender's thread.
unfoldable pub async_signal_handler : Os → Signal → ℤ → M Master (Unit {0})
async_signal_handler os sigusr1 si_pid = do
  m ← get
  count_signal os (get_assigned_idx (λ g. g.pid) zeroed_shmseg si_pid m.shm.slave_shmseg)
async_signal_handler os _ si_pid = pure tt
