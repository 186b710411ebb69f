-- ===== src/Master/Send.antt =====
-- src/master.c: the functions that answer the configurator and the slave, and that send requests.
pub mod Requests
use real_time_cyclic.Prelude.{Bool, ◌==ℤ◌}
use real_time_cyclic.Common.{
  Shmseg, Ret, rtc_success, rtc_error, sigusr1, sigusr2, Request, connect_slave, disconnect_slave,
  change_slave_name, start_slave_cycle, stop_slave_cycle, nack, ack, Response,
  error_not_set_communication_cycle,
}
use real_time_cyclic.Os.{
  Os, m_to_s_request, M, ◌>>=◌, ◌>>◌, pure, get, modify, when, given◌run◌otherwise◌,
}
use real_time_cyclic.Master.Link.{
  Link, log_error, update_seg, kill, sem_wait, reset_slave_shmseg, sem_wait_failed,
  kill_configurator_failed, kill_slave_failed, cycle_not_set,
}

abbrev set_request : Request → M Link (Unit {0})
set_request r = update_seg (λ g. record g { req_m_to_s = r })

module _ (os : Os) where
  abbrev respond_configurator : Response → M Link (Unit {0})
  respond_configurator r = do
    modify (λ l. record l { control = record (l.control) { response = r } })
    l ← get
    failed ← kill os l.control.configurator_pid sigusr2
    when failed (log_error kill_configurator_failed)

  unfoldable pub send_configurator_ack_response : M Link (Unit {0})
  unfolding kill
  send_configurator_ack_response = respond_configurator ack

  unfoldable pub send_configurator_nack_response : M Link (Unit {0})
  unfolding kill
  send_configurator_nack_response = respond_configurator nack

  abbrev respond_slave : Response → M Link (Unit {0})
  respond_slave r = do
    update_seg (λ g. record g { res_m_to_s = r })
    l ← get
    failed ← kill os l.seg.pid sigusr1
    when failed (log_error (kill_slave_failed l.seg.pid))

  unfoldable pub send_slave_ack_response : M Link (Unit {0})
  unfolding kill
  send_slave_ack_response = respond_slave ack

  unfoldable pub send_slave_nack_response : M Link (Unit {0})
  unfolding kill
  send_slave_nack_response = respond_slave nack

  -- Takes the request semaphore, writes the request, and signals the slave; `undo` is what follows
  -- a signal that cannot be sent.
  abbrev send_request : Request → M Link (Unit {0}) → M Link Ret
  send_request r undo = do
    failed ← sem_wait os m_to_s_request
    given failed run (do log_error sem_wait_failed; pure rtc_error) otherwise (do
      set_request r
      l ← get
      failed ← kill os l.seg.pid sigusr1
      given failed
          run (do log_error (kill_slave_failed l.seg.pid); undo; pure rtc_error)
          otherwise pure rtc_success)

  unfoldable pub send_change_name_slave_request : M Link Ret
  unfolding kill sem_wait
  send_change_name_slave_request = send_request change_slave_name (pure tt)

  unfoldable pub send_connect_slave_request : M Link Ret
  unfolding kill sem_wait reset_slave_shmseg
  send_connect_slave_request = send_request connect_slave (reset_slave_shmseg os)

  unfoldable pub send_disconnect_slave_request : M Link Ret
  unfolding kill sem_wait
  send_disconnect_slave_request = send_request disconnect_slave (pure tt)

  -- What follows the lookup of `affected_slave_pid` in the two functions below.
  unfoldable pub send_start_cycle_slave_request : M Link Ret
  unfolding kill sem_wait
  send_start_cycle_slave_request = do
    l ← get
    given l.seg.communication_cycle_us ==ℤ error_not_set_communication_cycle
        run (do log_error (cycle_not_set l.seg.pid); pure rtc_error)
        otherwise send_request start_slave_cycle (pure tt)

  unfoldable pub send_stop_cycle_slave_request : M Link Ret
  unfolding kill sem_wait
  send_stop_cycle_slave_request = send_request stop_slave_cycle (pure tt)
