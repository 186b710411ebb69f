-- ===== src/Configurator/Exhausted/Rounds.antt =====
-- The number of created slaves never falls in a whole round of the menu.
use real_time_cyclic.Prelude.{ℕ, arith, ℤ, Option, none, some}
use real_time_cyclic.Common.{Shm, rtc_success, Request}
use real_time_cyclic.Os.{Os, M, Ensures, final_state, pure}
use real_time_cyclic.Configurator.Input.{Line}
use real_time_cyclic.Configurator.{Config}
use real_time_cyclic.Configurator.Menu.{
  create_slave_case, delete_slave_case, connect_slave_case, disconnect_slave_case,
  stop_slave_cycle_case, stop_master_case,
}
use real_time_cyclic.Configurator.Cycle.{start_slave_cycle_case}
use real_time_cyclic.Configurator.AutomaticTest.{automatic_test_case}
use real_time_cyclic.Configurator.Data.{print_slave_data}
use real_time_cyclic.Configurator.LogFilter.{read_log_level_input, print_log_data}
use real_time_cyclic.Configurator.Main.{
  Round, read_req_code, start_master_case, then_success, printed, dispatch, menu_round,
}
use real_time_cyclic.Configurator.Exhausted.Cases.{
  AtLeast, create-AtLeast, delete-AtLeast, connect-AtLeast, disconnect-AtLeast, stop_cycle-AtLeast,
  stop_master-AtLeast,
}
use real_time_cyclic.Configurator.Exhausted.Cycle.{both-AtLeast, start-AtLeast}
use real_time_cyclic.Configurator.Exhausted.AutomaticTest.{test-AtLeast}

module _ (k : ℕ) (os : Os) where
  start_master-AtLeast :
      (p : ℤ) (o : Option Shm) (c : Config)
      → AtLeast k c
      → Ensures (AtLeast k) (start_master_case p o c)
  unfolding start_master_case
  start_master-AtLeast p none c h = ground (arith, h)
  start_master-AtLeast p (some shm) c h = ground (arith, h)

  then-AtLeast :
      (m : M Config (Unit {0})) (c : Config)
      → Ensures (AtLeast k) (m c)
      → Ensures (AtLeast k) (then_success m c)
  then-AtLeast m c h = both-AtLeast k m (λ _. pure rtc_success) c h (λ _ t j. j)

  printed-AtLeast :
      {A : Type 0} (o : Option A) (c : Config) → AtLeast k c → Ensures (AtLeast k) (printed o c)
  printed-AtLeast none c h = tt
  printed-AtLeast (some a) c h = h

  dispatch-AtLeast :
      (r : Round) (q : Request) (c : Config) → AtLeast k c → Ensures (AtLeast k) (dispatch os r q c)
  unfolding dispatch
  dispatch-AtLeast r Request.start_master c h = start_master-AtLeast r.fork_pid r.attached c h
  dispatch-AtLeast r Request.stop_master c h =
      then-AtLeast (stop_master_case os) c (stop_master-AtLeast k os c h)
  dispatch-AtLeast r Request.create_slave c h =
      then-AtLeast (create_slave_case r.first_line r.second_line r.fork_pid) c
        (create-AtLeast k r.first_line r.second_line r.fork_pid c h)
  dispatch-AtLeast r Request.delete_slave c h =
      then-AtLeast (delete_slave_case os r.first_line) c (delete-AtLeast k os r.first_line c h)
  dispatch-AtLeast r Request.connect_slave c h =
      then-AtLeast (connect_slave_case os r.first_line r.response) c
        (connect-AtLeast k os r.first_line r.response c h)
  dispatch-AtLeast r Request.disconnect_slave c h =
      then-AtLeast (disconnect_slave_case os r.first_line r.response) c
        (disconnect-AtLeast k os r.first_line r.response c h)
  dispatch-AtLeast r Request.start_slave_cycle c h =
      then-AtLeast (start_slave_cycle_case os r.first_line r.answers r.response) c
        (start-AtLeast k os r.first_line r.answers r.response c h)
  dispatch-AtLeast r Request.stop_slave_cycle c h =
      then-AtLeast (stop_slave_cycle_case os r.first_line r.response) c
        (stop_cycle-AtLeast k os r.first_line r.response c h)
  dispatch-AtLeast r Request.automatic_test c h =
      then-AtLeast (automatic_test_case os r.test_input) c (test-AtLeast k os r.test_input c h)
  dispatch-AtLeast r Request.print_slave_data c h = printed-AtLeast (print_slave_data c) c h
  dispatch-AtLeast r Request.print_log_data c h =
      printed-AtLeast (print_log_data (read_log_level_input r.level_line) r.stale_level r.log_lines)
        c h
  dispatch-AtLeast r _ c h = h

  pub round-AtLeast :
      (r : Round) (line : Line) (c : Config)
      → AtLeast k c
      → Ensures (AtLeast k) (menu_round os r line c)
  unfolding menu_round read_req_code
  round-AtLeast r line c h = dispatch-AtLeast r (asked c).control.request (asked c) h
    where
      asked : Config → Config
      asked d = final_state d (read_req_code line d)
