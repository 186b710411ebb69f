-- ===== src/Tests/SlaveTests.antt =====
-- Tests of the slave, and its theorems at inputs that meet their hypotheses.
use real_time_cyclic.Prelude.{
  ◌⊎◌, inl, some, List, replicate, ◌++◌, length, false, ℕ, ◌<◌, ℤ, pos, ◌≡◌, refl, true, [], ◌∷◌,
  arith,
}
use real_time_cyclic.Common.{
  rtc_success, rtc_error, ack, master_failed_to_respond, change_slave_name,
}
use real_time_cyclic.Os.{Returns, reliable, blocked, done, fault}
use real_time_cyclic.Slave.Signals.{
  parse_parameters, parse_bit, is_one_at, init_self, choose_handler,
}
use real_time_cyclic.Common.Text.{c_string, strcpy, print_unsigned}
use real_time_cyclic.Tests.Data.{self_dave, dave, node_dave, seg_acknowledged}
use real_time_cyclic.Slave.Name.Padding.{padded}
use real_time_cyclic.Common.Params.{add_bit}
use real_time_cyclic.Slave.Start.{
  StartCalls, any_fails, start_slave, not_started, running, start_slave-Outcomes,
}
use real_time_cyclic.Slave.Name.{handle_change_name_slave_request}
use real_time_cyclic.Slave.Name.Overflow.{rename_overflow}
use real_time_cyclic.Slave.Name.Rename.{Named, handle_change_name-Named, name_after}
use real_time_cyclic.Slave.Node.{Node, set_error_seg}
use real_time_cyclic.Slave.Cycle.{
  Meanwhile, nothing, Timeval, next_round, timeout_segments, await_master, cycle_round,
  send_master_signal_master_parameter_request,
}
use real_time_cyclic.Slave.Cycle.Wait.{Posted, NoError, await_master-ends, usleep_failure}
use real_time_cyclic.Slave.Cycle.Signal.{Outcomes, send_parameter-Outcomes}

name_after_two : name_after dave 2 ≡ b'd' ∷ b'a' ∷ b'v' ∷ b'e' ∷ b'_' ∷ b'2' ∷ []
unfolding name_after print_unsigned
name_after_two = refl

handle_change_name-Named_example :
    Returns
      (λ _ n'. Named dave 1 n' × (n'.seg.res_s_to_m ≡ ack))
      (handle_change_name_slave_request reliable node_dave)
unfolding node_dave name_after
handle_change_name-Named_example =
    handle_change_name-Named reliable dave 0 node_dave (omega arith, omega arith, omega arith)
      (omega arith) (record { index = refl; own = refl; shared = refl })

abbrev no_posts : ℕ → ℕ
no_posts k = 0

await_master-ends_example :
    (((0 < node_dave.seg.sem_s_to_m_request) ⊎ Posted no_posts timeout_segments)
      → Returns (λ _ n'. NoError node_dave n') (await_master no_posts timeout_segments node_dave))
    × (node_dave.seg.sem_s_to_m_request ≡ 0
        → ((k : ℕ) → k < timeout_segments → no_posts k ≡ 0)
        → await_master no_posts timeout_segments node_dave
          ≡ done tt
              (record node_dave { seg = set_error_seg master_failed_to_respond node_dave.seg }))
await_master-ends_example = await_master-ends no_posts node_dave

-- The slave while its cycle runs.
abbrev node_running : Node
node_running = record node_dave { self = record (node_dave.self) { allow_cycle = 1 } }

usleep_failure_example :
    Returns
      (λ r n'.
        (r ≡ next_round (pos 1000))
        × (n'.seg.cycle_started ≡ node_running.seg.cycle_started)
        × ((posts' : Meanwhile) (rand' : ℕ) (now' : Timeval) (sleep' : ℤ)
            → cycle_round (record reliable { usleep_fails = true }) posts' rand' now' sleep' n'
              ≡ blocked n'))
      (cycle_round
        (record reliable { usleep_fails = true })
        nothing
        5
        (record { tv_sec = 1; tv_usec = 0 })
        (pos 1000)
        node_running)
usleep_failure_example =
    usleep_failure (record reliable { usleep_fails = true }) nothing 5
      (record { tv_sec = 1; tv_usec = 0 }) 999 node_running refl refl refl

-- The cycle is stopped while the slave waits.
abbrev stopped_meanwhile : Meanwhile
stopped_meanwhile = record { posts = no_posts; stops = true }

abbrev node_started : Node
node_started = record node_running { seg = record (node_running.seg) { cycle_started = true } }

send_parameter-Outcomes_example :
    Returns
      (Outcomes true node_started)
      (send_master_signal_master_parameter_request reliable stopped_meanwhile node_started)
send_parameter-Outcomes_example =
    send_parameter-Outcomes reliable stopped_meanwhile node_started (inl (refl, refl)) refl refl
      refl refl

-- The thread of the cycle cannot be created.
abbrev no_cycle : StartCalls
no_cycle = record {
  sigprocmask_fails = false;
  shmget_fails = false;
  shmat_fails = false;
  sem_init_fails = false;
  attr_init_fails = false;
  attr_setdetachstate_fails = false;
  cycle_create_fails = true;
  handler_create_fails = false;
  sem_destroy_fails = false;
  shmdt_fails = false;
}

dave_starts : init_self dave (b'1' ∷ b'1' ∷ b'1' ∷ []) ≡ some self_dave
unfolding init_self strcpy parse_parameters parse_bit is_one_at add_bit self_dave padded
dave_starts = refl

start_slave-Outcomes_example :
    Returns
      (λ ret s.
        ((any_fails no_cycle ≡ false) × (ret ≡ rtc_success) × (s ≡ running self_dave))
        ⊎ ((any_fails no_cycle ≡ true) × (ret ≡ rtc_error) × (s.handler_thread ≡ false)))
      (start_slave no_cycle (dave ∷ (b'1' ∷ b'1' ∷ b'1' ∷ []) ∷ []) not_started)
start_slave-Outcomes_example =
    start_slave-Outcomes no_cycle dave (b'1' ∷ b'1' ∷ b'1' ∷ []) self_dave dave_starts

-- A name of 127 bytes, and its NUL.
abbrev long_name : List ℕ
long_name = replicate 127 b'a' ++ (0 ∷ [])

abbrev node_long : Node
node_long = record node_dave {
  self = record (node_dave.self) { name = long_name };
  seg = record (node_dave.seg) { name = long_name; req_m_to_s = change_slave_name };
}

long_name_text : length (c_string long_name) ≡ 127
unfolding c_string
long_name_text = refl

rename_overflow_example : choose_handler reliable node_long ≡ fault
rename_overflow_example =
    rename_overflow reliable node_long refl refl
      (λ e. absurd (unfold node_dave seg_acknowledged in ground (arith, e)))
      (unfold node_dave seg_acknowledged in refl) refl (unfold node_dave self_dave in refl) refl
      (omega (arith, long_name_text))
