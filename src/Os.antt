-- ===== src/Os.antt =====
-- The calls of the operating system and of POSIX threads that the three programs make, and the
-- monad of their handlers. What is not the program's is a parameter: `Os` says of each call whether
-- it fails while one handler runs. A semaphore that works is its value.
mod Handler
mod Laws
pub use Handler.*
pub use Laws.*
use real_time_cyclic.Prelude.{ℕ, zero, suc, ℤ, Bool, true, false, Option, none, some}
use mathlib.Core.Path.{◌≡◌, refl, ap}
use real_time_cyclic.Common.{Signal}

pub data Sem : Type 0 where
  s_to_m_request m_to_s_request sig_semaphore allow_communication_cycle : Sem

-- A pointer to shared memory: NULL, the result -1 of a `shmat` that failed, or attached memory.
pub data Pointer (A : Type 0) : Type 0 where
  null invalid : Pointer A
  attached : A → Pointer A

-- Whether each call reports an error.
pub record Os : Type 0 where
  pub kill_fails : ℤ → Signal → Bool
  pub sem_wait_fails : Sem → Bool
  pub sem_post_fails : Sem → Bool
  pub sem_getvalue_fails : Sem → Bool
  pub usleep_fails : Bool
  pub attr_init_fails : Bool
  pub attr_setdetachstate_fails : Bool
  pub pthread_create_fails : Bool

-- Every call succeeds.
abbrev pub reliable : Os
reliable = record {
  kill_fails = λ pid sig. false;
  sem_wait_fails = λ s. false;
  sem_post_fails = λ s. false;
  sem_getvalue_fails = λ s. false;
  usleep_fails = false;
  attr_init_fails = false;
  attr_setdetachstate_fails = false;
  pthread_create_fails = false;
}
