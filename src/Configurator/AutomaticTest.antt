-- ===== src/Configurator/AutomaticTest.antt =====
-- src/configurator.c: AUTOMATIC_TEST, the case of the menu that creates, connects and starts slaves.
pub mod Overrun
use real_time_cyclic.Prelude.{
  ℕ, zero, suc, ◌+◌, ◌*◌, ◌==◌, ℤ, pos, ◌==ℤ◌, ◌||◌, List, [], ◌∷◌, Option, none, some, get_or,
  if◌then◌else◌,
}
use real_time_cyclic.Common.{
  Shm, Shmseg, Ret, rtc_success, rtc_error, Response, Request, connect_slave, start_slave_cycle,
  no_pid, max_slaves,
}
use real_time_cyclic.Common.Params.{
  add_bit, string_parameter_bit, int_parameter_bit, bool_parameter_bit,
}
use real_time_cyclic.Table.{at}
use real_time_cyclic.Os.{Os, M, ◌>>=◌, ◌>>◌, pure, get, modify, given◌run◌otherwise◌}
use real_time_cyclic.Configurator.Input.{Line, buffer_of, scan_int}
use real_time_cyclic.Configurator.{
  CreatedSlave, blank, Config, send_connect_slave_request, send_start_cycle_slave_request,
  wait_connect_slave_response, wait_start_slave_cycle_response,
}
use real_time_cyclic.Configurator.Menu.{spawn}
use real_time_cyclic.Configurator.Cycle.{read_segment, write_segment, positive}

-- The line with the number of slaves, the results of `fork`, the answers of the master, and what
-- the other processes do to the shared memory while the configurator sleeps.
pub record TestInput : Type 0 where
  pub line : Line
  pub fork_pid : ℕ → ℤ
  pub connect_response : ℕ → Option Response
  pub start_response : ℕ → Option Response
  pub others : Option Shm → Option Shm

abbrev pub test_name : List ℕ
test_name = b'a' ∷ b's' ∷ b'd' ∷ []

abbrev pub test_available : List ℕ
test_available = b'1' ∷ b'1' ∷ b'1' ∷ []

abbrev pub test_requested : List ℕ
test_requested = b'0' ∷ b'1' ∷ b'0' ∷ []

abbrev pub test_cycle_us : ℕ
test_cycle_us = 500 * 1000

-- The loop that creates the slaves: `rounds` of them, the next with the index `i`.
unfoldable pub spawn_slaves : (ℕ → ℤ) → ℕ → ℕ → M Config (Unit {0})
unfolding spawn
spawn_slaves fork_pid zero i = pure tt
spawn_slaves fork_pid (suc rounds) i = do
  spawn test_name test_available (fork_pid i)
  spawn_slaves fork_pid rounds (i + 1)

unfoldable pub pause : TestInput → M Config (Unit {0})
pause t = modify λ c. record c { shmp = t.others c.shmp }

abbrev pub set_request : Request → M Config (Unit {0})
set_request r = modify λ c. record c { control = record (c.control) { request = r } }

-- `requested_parameters[i] == '1'`.
abbrev pub request_bit : ℕ → ℕ → Shmseg → Shmseg
request_bit i bit g = record g {
  requested_parameters =
      if get_or test_requested i 0 == b'1'
      then add_bit g.requested_parameters bit
      else g.requested_parameters;
}

unfoldable pub configure_test : Shmseg → Shmseg
configure_test g =
    record (request_bit 2 bool_parameter_bit
      (request_bit 1 int_parameter_bit (request_bit 0 string_parameter_bit g))) {
        communication_cycle_us = pos test_cycle_us;
      }

module _ (os : Os) (t : TestInput) where
  abbrev pub connect_next : ℕ → ℤ → M Config (Unit {0}) → Ret → M Config (Unit {0})
  connect_next i pid rest rtc_success = do
    wait_connect_slave_response (t.connect_response i) pid
    rest
  connect_next i pid rest rtc_error = pure tt

  abbrev pub connect_one : ℕ → CreatedSlave → M Config (Unit {0}) → M Config (Unit {0})
  connect_one i s rest = given s.pid ==ℤ no_pid || s.connected run rest otherwise (do
    set_request connect_slave
    ret ← send_connect_slave_request os s.pid
    connect_next i s.pid rest ret)

  -- The loop that connects the slaves; the first request that is not sent ends it.
  unfoldable pub connect_slaves : ℕ → ℕ → M Config (Unit {0})
  connect_slaves zero i = pure tt
  connect_slaves (suc rounds) i = do
    c ← get
    connect_one i (get_or c.created_slave i blank) (connect_slaves rounds (i + 1))

  abbrev pub started : ℕ → Ret → M Config (Unit {0})
  started i rtc_success = do wait_start_slave_cycle_response (t.start_response i); pause t
  started i rtc_error = pure tt

  abbrev pub start_one : ℕ → Shmseg → M Config (Unit {0})
  start_one i g =
      given g.is_connected
      run (do
        write_segment (at i) configure_test
        set_request start_slave_cycle
        ret ← send_start_cycle_slave_request os g.pid
        started i ret)
      otherwise pure tt

  -- The loop that starts the cycle of each slave that is connected.
  unfoldable pub start_cycles : ℕ → ℕ → M Config (Unit {0})
  start_cycles zero i = pure tt
  start_cycles (suc rounds) i = do read_segment (at i) (start_one i); start_cycles rounds (i + 1)

  abbrev pub after_spawn : M Config (Unit {0})
  after_spawn = do pause t; connect_slaves max_slaves 0; pause t; start_cycles max_slaves 0

  abbrev pub run_test : Option ℕ → M Config (Unit {0})
  run_test none = pure tt
  run_test (some num_slaves) = do spawn_slaves t.fork_pid num_slaves 0; after_spawn

  unfoldable pub automatic_test_case : M Config (Unit {0})
  automatic_test_case = run_test (positive (scan_int (buffer_of t.line)))
