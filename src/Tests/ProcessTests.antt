-- ===== src/Tests/ProcessTests.antt =====
-- The start and the end of the master, by the configurator with pid 50.
use real_time_cyclic.Prelude.{◌≡◌, refl, true, pos}
use real_time_cyclic.Common.{Shm, rtc_success}
use real_time_cyclic.Os.{done, fault}
use real_time_cyclic.Master.Init.Process.{
  Calls, Process, no_failure, no_process, start_main, start_main_unattached, start_main_ready,
  AllFree,
}
use real_time_cyclic.Tests.Data.{control_start}

abbrev no_memory : Calls
no_memory = record no_failure { shmat_fails = true }

start_main_unattached_example : start_main no_memory (pos 10) control_start no_process ≡ fault
start_main_unattached_example = start_main_unattached no_memory (pos 10) control_start refl refl

start_main_ready_example :
    (shm : Shm) × (p : Process) × (start_main no_failure (pos 10) control_start no_process
      ≡ done rtc_success p)
    × AllFree (pos 10) control_start shm p
start_main_ready_example = start_main_ready (pos 10) control_start
