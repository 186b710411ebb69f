-- ===== src/Master/Reply.antt =====
-- src/master.c: answers of the slave to the master's requests. `must_change` is what
-- `must_change_name` returns for the segment; the processor thread ends on RTC_ERROR.
pub mod Protocol
pub mod Connection
use real_time_cyclic.Prelude.{Bool, true}
use real_time_cyclic.Common.{
  Ret, rtc_success, rtc_error, Request, connect_slave, disconnect_slave, start_slave_cycle,
  stop_slave_cycle, change_slave_name, Response, nack, ack, response_size,
}
use real_time_cyclic.Os.{Os, m_to_s_request, M, ◌>>=◌, ◌>>◌, pure, get, given◌run◌otherwise◌}
use real_time_cyclic.Master.Link.{
  Link, log_error, update_seg, sem_post_or_log, reset_slave_shmseg, failed_disconnect,
  unrecognized_response, received_unrecognized,
}
use real_time_cyclic.Master.Send.{
  send_configurator_ack_response, send_configurator_nack_response, send_change_name_slave_request,
}

module _ (os : Os) (must_change : Bool) where
  abbrev finish_request : M Link Ret
  finish_request = do sem_post_or_log os m_to_s_request; pure rtc_success

  -- The answers to DISCONNECT_SLAVE; on ACK the detached thread is stopped.
  unfoldable pub handle_disconnect_response : Response → M Link Ret
  unfolding sem_post_or_log reset_slave_shmseg send_configurator_ack_response
      send_configurator_nack_response
  handle_disconnect_response nack = do
    log_error failed_disconnect
    send_configurator_nack_response os
    finish_request
  handle_disconnect_response ack = do
    reset_slave_shmseg os
    send_configurator_ack_response os
    pure rtc_error
  handle_disconnect_response response_size = do log_error unrecognized_response; finish_request

  -- The answers to START_SLAVE_CYCLE and STOP_SLAVE_CYCLE.
  unfoldable pub handle_cycle_response : Response → M Link Ret
  unfolding sem_post_or_log send_configurator_ack_response send_configurator_nack_response
  handle_cycle_response nack = do send_configurator_nack_response os; finish_request
  handle_cycle_response ack = do send_configurator_ack_response os; finish_request
  handle_cycle_response response_size = do
    log_error unrecognized_response
    send_configurator_nack_response os
    finish_request

  -- The answers to CONNECT_SLAVE and CHANGE_SLAVE_NAME.
  unfoldable pub handle_name_response : Response → M Link Ret
  unfolding sem_post_or_log send_configurator_ack_response send_configurator_nack_response
      send_change_name_slave_request
  handle_name_response nack = do send_configurator_nack_response os; finish_request
  handle_name_response ack =
      given must_change
      run (do
        sem_post_or_log os m_to_s_request
        ret ← send_change_name_slave_request os
        pure rtc_success)
      otherwise (do
        update_seg (λ g. record g { is_connected = true })
        send_configurator_ack_response os
        finish_request)
  handle_name_response response_size = do
    log_error unrecognized_response
    send_configurator_nack_response os
    finish_request

  -- The outer switch for a connected slave.
  unfoldable pub connected_response : Request → Response → M Link Ret
  unfolding handle_disconnect_response handle_cycle_response sem_post_or_log
  connected_response disconnect_slave res = handle_disconnect_response res
  connected_response stop_slave_cycle res = handle_cycle_response res
  connected_response start_slave_cycle res = handle_cycle_response res
  connected_response _ res = do log_error received_unrecognized; finish_request

  -- The outer switch for one that is not connected yet.
  unfoldable pub unconnected_response : Request → Response → M Link Ret
  unfolding handle_name_response sem_post_or_log
  unconnected_response connect_slave res = handle_name_response res
  unconnected_response change_slave_name res = handle_name_response res
  unconnected_response _ res = do log_error received_unrecognized; finish_request

  unfoldable pub handle_slave_response : M Link Ret
  handle_slave_response = do
    l ← get
    given l.seg.is_connected
        run connected_response l.seg.req_m_to_s l.seg.res_s_to_m
        otherwise unconnected_response l.seg.req_m_to_s l.seg.res_s_to_m
