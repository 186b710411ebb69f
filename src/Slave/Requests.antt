-- ===== src/Slave/Requests.antt =====
-- src/slave.c: the handlers of the master's requests and answers.
use real_time_cyclic.Prelude.{pos, true, false, not, none}
use real_time_cyclic.Common.{
  Request, connect_slave, disconnect_slave, change_slave_name, start_slave_cycle, stop_slave_cycle,
  already_started, already_stopped, allow_post_failed, unrecognized_request,
}
use real_time_cyclic.Common.Text.{c_string, strcpy}
use real_time_cyclic.Os.{
  Os, s_to_m_request, allow_communication_cycle, M, ◌>>=◌, ◌>>◌, pure, get, or_crash,
  given◌run◌otherwise◌,
}
use real_time_cyclic.Slave.Node.{
  Node, update_seg, update_self, set_error, sem_wait, sem_post, send_master_ack_response,
  send_master_nack_response,
}
use real_time_cyclic.Slave.Name.{handle_change_name_slave_request}

module _ (os : Os) where
  unfoldable pub handle_connect_slave_request : M Node (Unit {0})
  handle_connect_slave_request = do
    n ← get
    name ← or_crash (strcpy n.seg.name (c_string n.self.name)) pure
    update_seg (λ g. record g { name = name; available_parameters = n.self.available_parameters })
    send_master_ack_response os

  unfoldable pub handle_disconnect_slave_request : M Node (Unit {0})
  handle_disconnect_slave_request = do
    update_self (λ s. record s { last_sec = 0; last_usec = 0; excess_interval_us = pos 0 })
    send_master_ack_response os
    update_self (λ s. record s { shmseg = none })

  unfoldable pub handle_start_cycle_slave_request : M Node (Unit {0})
  unfolding sem_post
  handle_start_cycle_slave_request = do
    n ← get
    given n.seg.cycle_started
        run (do set_error already_started; send_master_nack_response os)
        otherwise (do
          update_seg (λ g. record g { cycle_started = true })
          failed ← sem_post os allow_communication_cycle
          given failed
              run (do set_error allow_post_failed; send_master_nack_response os)
              otherwise send_master_ack_response os)

  -- What `sem_wait` returns is not looked at.
  unfoldable pub handle_stop_cycle_slave_request : M Node (Unit {0})
  unfolding sem_wait
  handle_stop_cycle_slave_request = do
    n ← get
    given not n.seg.cycle_started
        run (do set_error already_stopped; send_master_nack_response os)
        otherwise (do
          update_seg (λ g. record g { cycle_started = false })
          failed ← sem_wait os allow_communication_cycle
          send_master_ack_response os)

  unfoldable pub handle_unrecognized_request : M Node (Unit {0})
  handle_unrecognized_request = do set_error unrecognized_request; send_master_nack_response os

  unfoldable pub dispatch_master_request : Request → M Node (Unit {0})
  dispatch_master_request connect_slave = handle_connect_slave_request
  dispatch_master_request disconnect_slave = handle_disconnect_slave_request
  dispatch_master_request change_slave_name = handle_change_name_slave_request os
  dispatch_master_request start_slave_cycle = handle_start_cycle_slave_request
  dispatch_master_request stop_slave_cycle = handle_stop_cycle_slave_request
  dispatch_master_request _ = handle_unrecognized_request

  unfoldable pub handle_master_request : M Node (Unit {0})
  unfolding dispatch_master_request
  handle_master_request = do n ← get; dispatch_master_request n.seg.req_m_to_s

  -- Each case of the switch prints a message only; then the request semaphore is given back.
  unfoldable pub handle_master_response : M Node (Unit {0})
  unfolding sem_post
  handle_master_response = do failed ← sem_post os s_to_m_request; pure tt
