-- ===== src/Configurator/Main.antt =====
-- src/configurator.c: the start of `main`, and one round of its loop over the menu.
use real_time_cyclic.Prelude.{
  ℕ, ℤ, pos, negsuc, ◌==ℤ◌, Bool, ◌||◌, List, [], ◌∷◌, get_or, if◌then◌else◌, Option, none, some,
  replicate,
}
use real_time_cyclic.Common.{
  Shm, ControlShm, Ret, rtc_success, rtc_error, Response, nack, Request, no_pid, max_slaves,
}
use real_time_cyclic.Os.{Os, M, ◌>>=◌, ◌>>◌, pure, get, modify, crash, given◌run◌otherwise◌}
use real_time_cyclic.Configurator.Input.{Line, buffer_of, scan_int}
use real_time_cyclic.Configurator.{Config, blank}
use real_time_cyclic.Configurator.Menu.{
  create_slave_case, delete_slave_case, connect_slave_case, disconnect_slave_case,
  stop_slave_cycle_case, stop_master_case,
}
use real_time_cyclic.Configurator.Cycle.{Answers, start_slave_cycle_case}
use real_time_cyclic.Configurator.Data.{print_slave_data}
use real_time_cyclic.Configurator.LogFilter.{read_log_level_input, print_log_data}
use real_time_cyclic.Configurator.AutomaticTest.{TestInput, automatic_test_case}

abbrev pub enumerators : List Request
enumerators =
    Request.start_master ∷ Request.stop_master ∷ Request.create_slave ∷ Request.delete_slave
    ∷ Request.connect_slave ∷ Request.disconnect_slave ∷ Request.start_slave_cycle
    ∷ Request.stop_slave_cycle ∷ Request.print_slave_data ∷ Request.print_log_data
    ∷ Request.automatic_test ∷ Request.change_slave_name ∷ Request.signal_master_parameter
    ∷ Request.request_size ∷ []

-- The conversion of an int to the enumeration.
unfoldable pub request_of : ℤ → Request
request_of (pos n) = get_or enumerators n (Request.other (pos n))
request_of (negsuc n) = Request.other (negsuc n)

unfoldable pub req_code : Option ℤ → ℤ
req_code none = negsuc 0
req_code (some n) = n

unfoldable pub read_req_code : Line → M Config (Unit {0})
unfolding request_of req_code
read_req_code line = modify λ c. record c {
  control = record (c.control) { request = request_of (req_code (scan_int (buffer_of line))) };
}

-- The control segment after `memset`, with the configurator's own pid.
unfoldable pub init_control_shared_memory : ℤ → ControlShm
init_control_shared_memory own_pid = record {
  response = nack;
  request = Request.start_master;
  configurator_pid = own_pid;
  affected_slave_pid = pos 0;
}

-- The state in which the loop is entered.
abbrev pub fresh : ℤ → Config
fresh own_pid = record {
  shmp = none;
  control = init_control_shared_memory own_pid;
  master_pid = no_pid;
  created_slaves_number = 0;
  created_slave = replicate max_slaves blank;
  spawned = [];
  sent = [];
}

-- `main` up to the loop; `none` when a call fails and `main` returns.
unfoldable pub init_configurator : Bool → Bool → ℤ → Option Config
unfolding init_control_shared_memory
init_configurator sigprocmask_fails shm_fails own_pid =
    if sigprocmask_fails || shm_fails then none else some (fresh own_pid)

-- The wait for the signal of the master, and then `init_shared_memory`; `none` when a call fails.
unfoldable pub wait_master_started_signal : Option Shm → M Config Ret
wait_master_started_signal none = pure rtc_error
wait_master_started_signal (some shm) = do
  modify (λ c. record c { shmp = some shm })
  pure rtc_success

-- START_MASTER, from what `fork` returns to the parent. With an error `main` returns.
unfoldable pub start_master_case : ℤ → Option Shm → M Config Ret
unfolding wait_master_started_signal
start_master_case fork_pid attached = do
  c ← get
  given c.master_pid ==ℤ no_pid
      run (do modify (λ d. record d { master_pid = fork_pid }); wait_master_started_signal attached)
      otherwise pure rtc_success

-- Everything that a round of the loop is given from outside: lines, results of `fork`, answers, the
-- lines of the log (`none` when it cannot be opened) and what is in the buffer of the level.
pub record Round : Type 0 where
  pub first_line : Line
  pub second_line : Line
  pub fork_pid : ℤ
  pub attached : Option Shm
  pub response : Option Response
  pub answers : Answers
  pub test_input : TestInput
  pub level_line : Line
  pub stale_level : List ℕ
  pub log_lines : Option (List (List ℕ))

-- What a case prints, or `none` where it reads or writes outside an array.
abbrev pub printed : {A : Type 0} → Option A → M Config Ret
printed none = crash
printed (some a) = pure rtc_success

abbrev pub then_success : M Config (Unit {0}) → M Config Ret
then_success m = do m; pure rtc_success

module _ (os : Os) (r : Round) where
  -- The switch.
  unfoldable pub dispatch : Request → M Config Ret
  dispatch Request.start_master = start_master_case r.fork_pid r.attached
  dispatch Request.stop_master = then_success (stop_master_case os)
  dispatch Request.create_slave =
      then_success (create_slave_case r.first_line r.second_line r.fork_pid)
  dispatch Request.delete_slave = then_success (delete_slave_case os r.first_line)
  dispatch Request.connect_slave = then_success (connect_slave_case os r.first_line r.response)
  dispatch Request.disconnect_slave =
      then_success (disconnect_slave_case os r.first_line r.response)
  dispatch Request.start_slave_cycle =
      then_success (start_slave_cycle_case os r.first_line r.answers r.response)
  dispatch Request.stop_slave_cycle =
      then_success (stop_slave_cycle_case os r.first_line r.response)
  dispatch Request.automatic_test = then_success (automatic_test_case os r.test_input)
  dispatch Request.print_slave_data = do c ← get; printed (print_slave_data c)
  dispatch Request.print_log_data =
      printed (print_log_data (read_log_level_input r.level_line) r.stale_level r.log_lines)
  dispatch _ = pure rtc_success

  unfoldable pub menu_round : Line → M Config Ret
  unfolding dispatch
  menu_round command_line = do read_req_code command_line; c ← get; dispatch c.control.request
