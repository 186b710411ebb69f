-- ===== src/Master/Commands.antt =====
-- src/master.c: the commands of the configurator, as the thread that waits for SIGUSR2 runs them.
pub mod Safety
use real_time_cyclic.Common.{
  Ret, rtc_success, rtc_error, Request, stop_master, connect_slave, disconnect_slave,
  start_slave_cycle, stop_slave_cycle, zeroed_shmseg, Signal, sigusr2,
}
use real_time_cyclic.Prelude.{Option, none, some}
use real_time_cyclic.Table.{Slot, at, no_idx, out_of_bounds, get_assigned_idx}
use real_time_cyclic.Os.{Os, M, ◌>>=◌, ◌>>◌, pure, get, crash}
use real_time_cyclic.Master.Link.{Link, create_thread_failed, unknown_command}
use real_time_cyclic.Master.Send.{
  send_configurator_nack_response, send_disconnect_slave_request, send_start_cycle_slave_request,
  send_stop_cycle_slave_request,
}
use real_time_cyclic.Master.State.{Master, on_segment, on_control}
use real_time_cyclic.Master.Processor.{log_error, create_slave_processor_detached_thread}

-- `getAssignedShmsegIdx(self.control_shmp->affected_slave_pid)`.
abbrev pub affected_slot : Master → Slot
affected_slot m =
    get_assigned_idx (λ g. g.pid) zeroed_shmseg m.control.affected_slave_pid m.shm.slave_shmseg

-- A request to a segment that was looked up, with the test for NO_IDX.
abbrev pub send_checked : Slot → M Link Ret → M Master Ret
send_checked (at i) send = on_segment i send
send_checked no_idx send = pure rtc_error
send_checked out_of_bounds send = crash

-- The same without a test: NO_IDX is -1, and the index -1 is outside the table.
abbrev pub send_unchecked : Slot → M Link Ret → M Master Ret
send_unchecked (at i) send = on_segment i send
send_unchecked no_idx send = crash
send_unchecked out_of_bounds send = crash

module _ (os : Os) where
  abbrev log_failure : Ret → M Master Ret
  log_failure rtc_success = pure rtc_success
  log_failure rtc_error = do log_error create_thread_failed; pure rtc_error

  unfoldable pub handle_configurator_connect_slave_request : M Master Ret
  unfolding create_slave_processor_detached_thread
  handle_configurator_connect_slave_request = do
    m ← get
    ret ← create_slave_processor_detached_thread os m.control.affected_slave_pid
    log_failure ret

  unfoldable pub handle_configurator_disconnect_slave_request : M Master Ret
  handle_configurator_disconnect_slave_request = do
    m ← get
    send_unchecked (affected_slot m) (send_disconnect_slave_request os)

  unfoldable pub handle_configurator_start_cycle_slave_request : M Master Ret
  handle_configurator_start_cycle_slave_request = do
    m ← get
    send_checked (affected_slot m) (send_start_cycle_slave_request os)

  unfoldable pub handle_configurator_stop_cycle_slave_request : M Master Ret
  handle_configurator_stop_cycle_slave_request = do
    m ← get
    send_checked (affected_slot m) (send_stop_cycle_slave_request os)

  abbrev pub nack_failure : Ret → M Master (Unit {0})
  nack_failure rtc_success = pure tt
  nack_failure rtc_error = on_control (send_configurator_nack_response os)

  abbrev pub nack_unless : M Master Ret → M Master (Unit {0})
  nack_unless h = do ret ← h; nack_failure ret

  unfoldable pub dispatch_command : Request → M Master (Unit {0})
  dispatch_command stop_master = pure tt
  dispatch_command connect_slave = nack_unless handle_configurator_connect_slave_request
  dispatch_command disconnect_slave = nack_unless handle_configurator_disconnect_slave_request
  dispatch_command start_slave_cycle = nack_unless handle_configurator_start_cycle_slave_request
  dispatch_command stop_slave_cycle = nack_unless handle_configurator_stop_cycle_slave_request
  dispatch_command r = log_error (unknown_command r)

  -- The body of the loop of `sync_signal_handler_thread`, for a signal that `sigwaitinfo` returned.
  unfoldable pub handle_command : M Master (Unit {0})
  unfolding dispatch_command
  handle_command = do m ← get; dispatch_command m.control.request

  -- One round of the loop, from the result of `sigwaitinfo`; `none` when it fails.
  unfoldable pub sync_signal_handler_round : Option Signal → M Master (Unit {0})
  sync_signal_handler_round none = pure tt
  sync_signal_handler_round (some sigusr2) = handle_command
  sync_signal_handler_round (some _) = pure tt
