-- ===== src/Configurator/Exhausted/AutomaticTest.antt =====
-- The number of created slaves never falls in AUTOMATIC_TEST.
use real_time_cyclic.Prelude.{ℕ, zero, suc, ◌+◌, arith, Option, none, some, get_or}
use real_time_cyclic.Common.{Shmseg, Ret, rtc_success, rtc_error, Request, max_slaves}
use real_time_cyclic.Table.{at}
use real_time_cyclic.Os.{Os, M, Ensures, ◌>>=◌, ◌>>◌}
use real_time_cyclic.Configurator.Input.{buffer_of, scan_int}
use real_time_cyclic.Configurator.{
  CreatedSlave, blank, Config, send_start_cycle_slave_request, wait_start_slave_cycle_response,
  send_connect_slave_request, wait_connect_slave_response,
}
use real_time_cyclic.Configurator.Menu.{spawn}
use real_time_cyclic.Configurator.Cycle.{read_segment, write_segment, positive}
use real_time_cyclic.Configurator.AutomaticTest.{
  TestInput, test_name, test_available, spawn_slaves, pause, configure_test, connect_next,
  connect_one, connect_slaves, started, start_one, start_cycles, run_test, automatic_test_case,
}
use real_time_cyclic.Configurator.Exhausted.Cases.{
  AtLeast, spawn-AtLeast, wait_connect-AtLeast, send_connect-AtLeast,
}
use real_time_cyclic.Configurator.Exhausted.Cycle.{
  both-AtLeast, read-AtLeast, write-AtLeast, send_start-AtLeast, wait_start-AtLeast,
}

module _ (k : ℕ) (os : Os) (t : TestInput) where
  spawn_slaves-AtLeast :
      (rounds i : ℕ) (c : Config)
      → AtLeast k c
      → Ensures (AtLeast k) (spawn_slaves t.fork_pid rounds i c)
  unfolding spawn_slaves
  spawn_slaves-AtLeast zero i c h = h
  spawn_slaves-AtLeast (suc rounds) i c h =
      both-AtLeast k (spawn test_name test_available (t.fork_pid i)) _ c
        (spawn-AtLeast k test_name test_available (t.fork_pid i) c h)
        λ _ u j. spawn_slaves-AtLeast rounds (i + 1) u j

  pause-AtLeast : (c : Config) → AtLeast k c → Ensures (AtLeast k) (pause t c)
  unfolding pause
  pause-AtLeast c h = h

  connect_one-AtLeast :
      (i : ℕ) (s : CreatedSlave) (rest : M Config (Unit {0})) (c : Config)
      → AtLeast k c
      → ((u : Config) → AtLeast k u → Ensures (AtLeast k) (rest u))
      → Ensures (AtLeast k) (connect_one os t i s rest c)
  connect_one-AtLeast i s rest c h step = ground (arith, step c h, requested)
    where
      asking : Config
      asking = record c { control = record (c.control) { request = Request.connect_slave } }

      by_result :
          (ret : Ret) (u : Config)
          → AtLeast k u
          → Ensures (AtLeast k) (connect_next os t i s.pid rest ret u)
      by_result rtc_success u j =
          both-AtLeast k (wait_connect_slave_response (t.connect_response i) s.pid) (λ _. rest) u
            (wait_connect-AtLeast k (t.connect_response i) s.pid u j) (λ _. step)
      by_result rtc_error u j = j

      requested :
          Ensures
            (AtLeast k)
            ((send_connect_slave_request os s.pid >>= connect_next os t i s.pid rest) asking)
      requested =
          both-AtLeast k (send_connect_slave_request os s.pid) (connect_next os t i s.pid rest)
            asking (send_connect-AtLeast k os s.pid asking h) by_result

  connect_slaves-AtLeast :
      (rounds i : ℕ) (c : Config)
      → AtLeast k c
      → Ensures (AtLeast k) (connect_slaves os t rounds i c)
  unfolding connect_slaves
  connect_slaves-AtLeast zero i c h = h
  connect_slaves-AtLeast (suc rounds) i c h =
      connect_one-AtLeast i (get_or c.created_slave i blank) (connect_slaves os t rounds (i + 1)) c
        h (connect_slaves-AtLeast rounds (i + 1))

  start_one-AtLeast :
      (i : ℕ) (g : Shmseg) (c : Config) → AtLeast k c → Ensures (AtLeast k) (start_one os t i g c)
  start_one-AtLeast i g c h = ground (arith, h, written)
    where
      by_result :
          (ret : Ret) (u : Config) → AtLeast k u → Ensures (AtLeast k) (started os t i ret u)
      by_result rtc_success u j =
          both-AtLeast k (wait_start_slave_cycle_response (t.start_response i)) (λ _. pause t) u
            (wait_start-AtLeast k os (t.start_response i) u j) (λ _. pause-AtLeast)
      by_result rtc_error u j = j

      asking : Config → Config
      asking d = record d { control = record (d.control) { request = Request.start_slave_cycle } }

      request : M Config (Unit {0})
      request d = (send_start_cycle_slave_request os g.pid >>= started os t i) (asking d)

      written : Ensures (AtLeast k) ((write_segment (at i) configure_test >> request) c)
      written =
          both-AtLeast k (write_segment (at i) configure_test) (λ _. request) c
            (write-AtLeast k (at i) configure_test c h)
            λ _ u j.
              both-AtLeast k (send_start_cycle_slave_request os g.pid) (started os t i) (asking u)
                (send_start-AtLeast k os g.pid (asking u) j) by_result

  start_cycles-AtLeast :
      (rounds i : ℕ) (c : Config) → AtLeast k c → Ensures (AtLeast k) (start_cycles os t rounds i c)
  unfolding start_cycles
  start_cycles-AtLeast zero i c h = h
  start_cycles-AtLeast (suc rounds) i c h =
      both-AtLeast k (read_segment (at i) (start_one os t i))
        (λ _. start_cycles os t rounds (i + 1)) c
        (read-AtLeast k (at i) (start_one os t i) c (λ g. start_one-AtLeast i g c h))
        (λ _. start_cycles-AtLeast rounds (i + 1))

  run_test-AtLeast :
      (n : Option ℕ) (c : Config) → AtLeast k c → Ensures (AtLeast k) (run_test os t n c)
  unfolding pause
  run_test-AtLeast none c h = h
  run_test-AtLeast (some n) c h =
      both-AtLeast k (spawn_slaves t.fork_pid n 0) (λ _. connecting) c
        (spawn_slaves-AtLeast n 0 c h)
        λ _ u j.
          both-AtLeast k (connect_slaves os t max_slaves 0) (λ _. starting) (paused u)
            (connect_slaves-AtLeast max_slaves 0 (paused u) j)
            λ _ v l. start_cycles-AtLeast max_slaves 0 (paused v) l
    where
      paused : Config → Config
      paused d = record d { shmp = t.others d.shmp }

      starting : M Config (Unit {0})
      starting d = start_cycles os t max_slaves 0 (paused d)

      connecting : M Config (Unit {0})
      connecting d = (connect_slaves os t max_slaves 0 >> starting) (paused d)

  pub test-AtLeast : (c : Config) → AtLeast k c → Ensures (AtLeast k) (automatic_test_case os t c)
  unfolding automatic_test_case
  test-AtLeast c h = run_test-AtLeast (positive (scan_int (buffer_of t.line))) c h
