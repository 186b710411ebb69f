-- ===== src/Slave/Start.antt =====
-- src/slave.c: `init`, `main` and `final` with calls that may fail.
use real_time_cyclic.Prelude.{
  ℕ, ◌≡◌, ◌⊎◌, arith, Bool, true, false, ◌||◌, List, [], ◌∷◌, Option, none, some,
}
use real_time_cyclic.Common.{Ret, rtc_success, rtc_error}
use real_time_cyclic.Os.{M, Returns, ◌>>=◌, ◌>>◌, pure, modify, crash, given◌run◌otherwise◌}
use real_time_cyclic.Slave.Node.{Self}
use real_time_cyclic.Slave.Signals.{init_self}

-- Which calls report an error.
pub record StartCalls : Type 0 where
  pub sigprocmask_fails : Bool
  pub shmget_fails : Bool
  pub shmat_fails : Bool
  pub sem_init_fails : Bool
  pub attr_init_fails : Bool
  pub attr_setdetachstate_fails : Bool
  pub cycle_create_fails : Bool
  pub handler_create_fails : Bool
  pub sem_destroy_fails : Bool
  pub shmdt_fails : Bool

-- The context, whether the memory is attached and the semaphore made, and the threads that run.
pub record Started : Type 0 where
  pub self : Option Self
  pub has_memory : Bool
  pub has_semaphore : Bool
  pub cycle_thread : Bool
  pub handler_thread : Bool

abbrev pub not_started : Started
not_started = record {
  self = none;
  has_memory = false;
  has_semaphore = false;
  cycle_thread = false;
  handler_thread = false;
}

-- `self` and the steps of the start that were made.
abbrev pub running : Self → Started
running self = record {
  self = some self;
  has_memory = true;
  has_semaphore = true;
  cycle_thread = true;
  handler_thread = true;
}

module _ (calls : StartCalls) where
  abbrev pub fail_if : Bool → M Started Ret → M Started Ret
  fail_if failed k = given failed run pure rtc_error otherwise k

  unfoldable pub block_signals : M Started Ret
  block_signals = fail_if calls.sigprocmask_fails (pure rtc_success)

  unfoldable pub init_shared_memory : M Started Ret
  init_shared_memory = fail_if calls.shmget_fails (
      fail_if calls.shmat_fails (do modify (λ s. record s { has_memory = true }); pure rtc_success))

  unfoldable pub init_allow_communication_cycle_semaphore : M Started Ret
  init_allow_communication_cycle_semaphore =
      fail_if calls.sem_init_fails
        (do modify (λ s. record s { has_semaphore = true }); pure rtc_success)

  unfoldable pub create_communication_cycle_detached_thread : M Started Ret
  create_communication_cycle_detached_thread = fail_if calls.attr_init_fails (
      fail_if calls.attr_setdetachstate_fails (
        fail_if calls.cycle_create_fails
          (do modify (λ s. record s { cycle_thread = true }); pure rtc_success)))

  -- `if ((ret = …) != RTC_SUCCESS) return ret;`
  abbrev pub and_then : M Started Ret → Ret → M Started Ret
  and_then k rtc_success = k
  and_then k rtc_error = pure rtc_error

  abbrev pub init_threads : M Started Ret
  init_threads = do
    ret ← init_allow_communication_cycle_semaphore
    and_then create_communication_cycle_detached_thread ret

  abbrev pub init_memory : M Started Ret
  init_memory = do ret ← init_shared_memory; and_then init_threads ret

  abbrev pub init_rest : M Started Ret
  init_rest = do ret ← block_signals; and_then init_memory ret

  abbrev pub with_self : Option Self → M Started Ret
  with_self none = crash
  with_self (some self) = do modify (λ s. record s { self = some self }); init_rest

  -- The arguments are those after the name of the program.
  unfoldable pub init_slave : List (List ℕ) → M Started Ret
  init_slave (slave_name ∷ parameters ∷ []) = with_self (init_self slave_name parameters)
  init_slave _ = pure rtc_error

  abbrev pub create_handler : M Started Ret
  create_handler =
      fail_if calls.handler_create_fails
        (do modify (λ s. record s { handler_thread = true }); pure rtc_success)

  -- `main` as far as the wait for its thread.
  unfoldable pub start_slave : List (List ℕ) → M Started Ret
  start_slave arguments = do ret ← init_slave arguments; and_then create_handler ret

  abbrev pub any_fails : Bool
  any_fails =
      calls.sigprocmask_fails
      || (calls.shmget_fails
          || (calls.shmat_fails
              || (calls.sem_init_fails
                  || (calls.attr_init_fails
                      || (calls.attr_setdetachstate_fails
                          || (calls.cycle_create_fails || calls.handler_create_fails))))))

  unfoldable pub final : M Started Ret
  final = do
    modify (λ s. record s { has_memory = false })
    pure (result calls.sem_destroy_fails calls.shmdt_fails)
    where
      result : Bool → Bool → Ret
      result false false = rtc_success
      result true b = rtc_error
      result false true = rtc_error

-- With arguments that fit, `main` starts both threads on the memory if no call fails; if one does,
-- it returns an error, and the thread that handles signals is not started.
pub start_slave-Outcomes :
    (calls : StartCalls) (slave_name parameters : List ℕ) (self : Self)
    → init_self slave_name parameters ≡ some self
    → Returns
        (λ ret s.
          ((any_fails calls ≡ false) × (ret ≡ rtc_success) × (s ≡ running self))
          ⊎ ((any_fails calls ≡ true) × (ret ≡ rtc_error) × (s.handler_thread ≡ false)))
        (start_slave calls (slave_name ∷ parameters ∷ []) not_started)
unfolding start_slave init_slave block_signals init_shared_memory
    init_allow_communication_cycle_semaphore create_communication_cycle_detached_thread
start_slave-Outcomes calls slave_name parameters self e = ground (arith, e)
