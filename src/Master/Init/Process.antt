-- ===== src/Master/Init/Process.antt =====
-- src/master.c: `init`, `final` and `main` with calls that may fail.
use real_time_cyclic.Prelude.{
  ℕ, zero, suc, ◌+◌, ◌≡◌, refl, arith, ℤ, Bool, true, false, ◌||◌, ◌<◌, ◌==ℤ◌, pos, negsuc,
  get_or-replicate, List, [], ◌∷◌, bit_or, if◌then◌else◌, get_or, set, replicate,
}
use real_time_cyclic.Common.{
  Shm, Shmseg, ControlShm, Signal, sigusr2, Ret, rtc_success, rtc_error, zeroed_shmseg, max_slaves,
}
use real_time_cyclic.Os.{
  Pointer, null, invalid, attached, Sem, s_to_m_request, m_to_s_request, sig_semaphore, M, done,
  fault, ◌>>=◌, ◌>>◌, pure, get, modify, crash, given◌run◌otherwise◌,
}
use real_time_cyclic.Master.Init
use real_time_cyclic.Master.Init.{init}
use real_time_cyclic.Master.Init.Start.{IsFree, init-IsFree}

pub record Process : Type 0 where
  pub shmp : Pointer Shm
  pub control_shmp : Pointer ControlShm
  pub sig_semaphore : List ℕ
  pub sent : List (ℤ × Signal)

-- Which calls report an error; of `pthread_sigmask` what it returns, 0 or the positive number of an
-- error.
pub record Calls : Type 0 where
  pub sigmask_error : ℕ
  pub shmget_fails : Bool
  pub shmat_fails : Bool
  pub control_shmget_fails : Bool
  pub control_shmat_fails : Bool
  pub sem_init_fails : Sem → ℕ → Bool
  pub sigaction_fails : Bool
  pub mutex_init_fails : Bool
  pub mutex_lock_fails : Bool
  pub pthread_create_fails : Bool
  pub kill_fails : Bool
  pub mutex_unlock_error : ℕ
  pub sem_destroy_fails : Sem → ℕ → Bool
  pub mutex_destroy_error : ℕ
  pub shmdt_fails : Bool

-- After `memset(&self, 0, sizeof(master_context_t))`.
abbrev pub no_process : Process
no_process = record {
  shmp = null;
  control_shmp = null;
  sig_semaphore = replicate max_slaves 0;
  sent = [];
}

module _ (calls : Calls) where
  abbrev pub fail_if : Bool → M Process Ret → M Process Ret
  fail_if failed k = given failed run pure rtc_error otherwise k

  unfoldable pub attach_shared_memory : ℤ → M Process Ret
  attach_shared_memory own_pid = fail_if calls.shmget_fails (
      given calls.shmat_fails
      run (do modify (λ p. record p { shmp = invalid }); pure rtc_error)
      otherwise (do
        modify (λ p. record p { shmp = attached (Init.init_shared_memory own_pid) })
        pure rtc_success))

  -- The control segment is the one that the configurator made.
  unfoldable pub attach_control_shared_memory : ControlShm → M Process Ret
  attach_control_shared_memory control = fail_if calls.control_shmget_fails (
      given calls.control_shmat_fails
      run (do modify (λ p. record p { control_shmp = invalid }); pure rtc_error)
      otherwise (do modify (λ p. record p { control_shmp = attached control }); pure rtc_success))

  abbrev pub init_at : ℕ → (Shmseg → Shmseg) → Pointer Shm → M Process (Unit {0})
  init_at i f null = crash
  init_at i f invalid = crash
  init_at i f (attached shm) = modify λ p. record p {
    shmp = attached (record shm {
      slave_shmseg = set shm.slave_shmseg i (f (get_or shm.slave_shmseg i zeroed_shmseg));
    });
  }

  -- `sem_init` on a semaphore of a segment, with the value 1.
  abbrev pub init_segment_semaphore : ℕ → (Shmseg → Shmseg) → M Process (Unit {0})
  init_segment_semaphore i f = do p ← get; init_at i f p.shmp

  -- One round of the loop over the segments.
  unfoldable pub init_round : ℕ → M Process Ret
  init_round i = fail_if (calls.sem_init_fails s_to_m_request i) (do
    init_segment_semaphore i (λ g. record g { sem_s_to_m_request = 1 })
    fail_if (calls.sem_init_fails m_to_s_request i) (do
      init_segment_semaphore i (λ g. record g { sem_m_to_s_request = 1 })
      fail_if (calls.sem_init_fails sig_semaphore i) (do
        modify (λ p. record p { sig_semaphore = set p.sig_semaphore i 0 })
        pure rtc_success)))

  abbrev pub then_init : M Process Ret → Ret → M Process Ret
  then_init k rtc_success = k
  then_init k rtc_error = pure rtc_error

  -- The loop: `rounds` of them, the next at `i`.
  unfoldable pub init_semaphores_from : ℕ → ℕ → M Process Ret
  unfolding init_round
  init_semaphores_from zero i = pure rtc_success
  init_semaphores_from (suc rounds) i = do
    ret ← init_round i
    then_init (init_semaphores_from rounds (i + 1)) ret

  unfoldable pub init_async_signal_handler : M Process Ret
  init_async_signal_handler =
      fail_if calls.sigaction_fails
        (fail_if calls.mutex_init_fails (fail_if calls.mutex_lock_fails (pure rtc_success)))

  abbrev pub init_rest : M Process Ret
  init_rest = do ret ← init_semaphores_from max_slaves 0; then_init init_async_signal_handler ret

  abbrev pub init_control : ControlShm → M Process Ret
  init_control control = do ret ← attach_control_shared_memory control; then_init init_rest ret

  -- The result is compared with -1.
  unfoldable pub block_signals : M Process Ret
  block_signals = fail_if (pos calls.sigmask_error ==ℤ negsuc 0) (pure rtc_success)

  abbrev pub init_memory : ℤ → ControlShm → M Process Ret
  init_memory own_pid control = do
    ret ← attach_shared_memory own_pid
    then_init (init_control control) ret

  unfoldable pub init_process : ℤ → ControlShm → M Process Ret
  unfolding block_signals
  init_process own_pid control = do ret ← block_signals; then_init (init_memory own_pid control) ret

  -- `kill(self.control_shmp->configurator_pid, SIGUSR2)`.
  abbrev pub tell_configurator : Pointer ControlShm → M Process Ret
  tell_configurator null = crash
  tell_configurator invalid = crash
  tell_configurator (attached control) = fail_if calls.kill_fails (do
    modify (λ p. record p { sent = (control.configurator_pid, sigusr2) ∷ p.sent })
    pure rtc_success)

  abbrev pub run_threads : M Process Ret
  run_threads = fail_if calls.pthread_create_fails (do p ← get; tell_configurator p.control_shmp)

  -- `main` as far as the wait for its threads; what `init` returns is not looked at.
  unfoldable pub start_main : ℤ → ControlShm → M Process Ret
  start_main own_pid control = do ignored ← init_process own_pid control; run_threads

module _ (calls : Calls) where
  -- `&self.shmp->slave_shmseg[i]` without a use of the memory is an address all the same; the
  -- semaphore there is used.
  abbrev pub with_memory : Pointer Shm → M Process Ret → M Process Ret
  with_memory null k = crash
  with_memory invalid k = crash
  with_memory (attached shm) k = k

  -- The loop of `destroy_signal_semaphores`: `rounds` of them, the next at `i`.
  unfoldable pub destroy_semaphores_from : ℕ → ℕ → M Process Ret
  destroy_semaphores_from zero i = pure rtc_success
  destroy_semaphores_from (suc rounds) i =
      fail_if calls (calls.sem_destroy_fails sig_semaphore i) (do
        p ← get
        with_memory p.shmp (
            fail_if calls (calls.sem_destroy_fails s_to_m_request i) (
              fail_if calls (calls.sem_destroy_fails m_to_s_request i)
                (destroy_semaphores_from rounds (i + 1)))))

  abbrev pub code_of : Ret → ℕ
  code_of rtc_success = 0
  code_of rtc_error = 1

  abbrev pub detach : Ret → M Process ℕ
  detach destroyed = do
    modify (λ p. record p { shmp = null })
    pure (
        if calls.shmdt_fails
        then 1
        else bit_or (bit_or calls.mutex_unlock_error (code_of destroyed)) calls.mutex_destroy_error)

  unfoldable pub final : M Process ℕ
  final = do destroyed ← destroy_semaphores_from max_slaves 0; detach destroyed

-- When the memory or the control segment could not be attached, and both threads could be created,
-- the master does not end: it reads the pid of the configurator through a pointer that is not valid.
pub start_main_unattached :
    (calls : Calls) (own_pid : ℤ) (control : ControlShm)
    → (calls.shmget_fails
        || (calls.shmat_fails || (calls.control_shmget_fails || calls.control_shmat_fails)))
      ≡ true
    → calls.pthread_create_fails ≡ false
    → start_main calls own_pid control no_process ≡ fault
unfolding start_main init_process attach_shared_memory attach_control_shared_memory block_signals
start_main_unattached calls own_pid control failed created = ground (arith, failed, created)

-- No call fails.
abbrev pub no_failure : Calls
no_failure = record {
  sigmask_error = 0;
  shmget_fails = false;
  shmat_fails = false;
  control_shmget_fails = false;
  control_shmat_fails = false;
  sem_init_fails = λ s i. false;
  sigaction_fails = false;
  mutex_init_fails = false;
  mutex_lock_fails = false;
  pthread_create_fails = false;
  kill_fails = false;
  mutex_unlock_error = 0;
  sem_destroy_fails = λ s i. false;
  mutex_destroy_error = 0;
  shmdt_fails = false;
}

-- A process with both segments attached and every segment free, its two semaphores at 1, no errors
-- and no signal counted; and the signal to the configurator sent.
abbrev pub AllFree : ℤ → ControlShm → Shm → Process → Type 0
AllFree own_pid control shm p =
    (p.shmp ≡ attached shm)
    × (shm.master_pid ≡ own_pid)
    × ((i : ℕ) → i < max_slaves → IsFree (get_or shm.slave_shmseg i zeroed_shmseg))
    × ((i : ℕ) → i < max_slaves → get_or p.sig_semaphore i 0 ≡ 0)
    × (p.control_shmp ≡ attached control)
    × (p.sent ≡ (control.configurator_pid, sigusr2) ∷ [])

abbrev ready : ℤ → ControlShm → Process
ready own_pid control = record {
  shmp = attached (init own_pid control).shm;
  control_shmp = attached control;
  sig_semaphore = replicate max_slaves 0;
  sent = (control.configurator_pid, sigusr2) ∷ [];
}

start_main-ready :
    (own_pid : ℤ) (control : ControlShm)
    → start_main no_failure own_pid control no_process ≡ done rtc_success (ready own_pid control)
unfolding start_main init_process attach_shared_memory attach_control_shared_memory
    init_semaphores_from init_round init_async_signal_handler Init.init Init.init_shared_memory
    block_signals
start_main-ready own_pid control = refl

init-master_pid :
    (own_pid : ℤ) (control : ControlShm) → (init own_pid control).shm.master_pid ≡ own_pid
unfolding Init.init Init.init_shared_memory
init-master_pid own_pid control = refl

-- When no call fails, the master starts with the control segment and the table of segments attached
-- and its own pid there. Each of the 32 segments has no owner, is not connected, has its cycle stopped
-- and no cycle time, both request semaphores at 1 and no error in it; no signal is counted for it; and
-- SIGUSR2 is sent to the configurator that made the control segment.
pub start_main_ready :
    (own_pid : ℤ) (control : ControlShm)
    → (shm : Shm) × (p : Process) × (start_main no_failure own_pid control no_process
        ≡ done rtc_success p)
      × AllFree own_pid control shm p
start_main_ready own_pid control = (
  (init own_pid control).shm,
  ready own_pid control,
  start_main-ready own_pid control,
  (
    refl,
    init-master_pid own_pid control,
    init-IsFree own_pid control,
    (λ i lt. get_or-replicate max_slaves i 0 0 lt),
    refl,
    refl,
  ),
)
