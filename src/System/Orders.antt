-- ===== src/System/Orders.antt =====
-- src/master.c: the commands of the configurator, and the requests for names.
use real_time_cyclic.Prelude.{ℕ, ◌<◌, ◌≡◌, arith, pos}
use real_time_cyclic.Common.{
  Shmseg, Ret, rtc_success, rtc_error, Request, connect_slave, disconnect_slave, stop_master,
  start_slave_cycle, stop_slave_cycle, max_slaves, zeroed_shmseg,
}
use real_time_cyclic.Table.{Slot, at, no_idx, out_of_bounds}
use real_time_cyclic.Table.Laws.{get_assigned_idx_hit}
use real_time_cyclic.Os.{Os, M, Ensures, Ensures-bind, Ensures-and}
use real_time_cyclic.Master.Link.{Link}
use real_time_cyclic.Master.Send.{send_configurator_nack_response}
use real_time_cyclic.Master.Send.Requests.{Sending, send, disconnect, start_cycle, stop_cycle}
use real_time_cyclic.Master.State.{Master, segment, link_at, on_segment, on_control}
use real_time_cyclic.Master.Processor.Invariant.{IsSound, put_back-Ensures}
use real_time_cyclic.Master.Processor.Admit.{lookup_pid}
use real_time_cyclic.Master.Commands.{
  send_checked, send_unchecked, nack_failure, nack_unless, affected_slot, dispatch_command,
  handle_command, handle_configurator_connect_slave_request,
  handle_configurator_disconnect_slave_request, handle_configurator_start_cycle_slave_request,
  handle_configurator_stop_cycle_slave_request,
}
use real_time_cyclic.Master.Commands.Safety.{looked_up, handle_command-Ensures}
use real_time_cyclic.System.Local.{Local, OnLink, All, Calm, put-All}

module _ (P : Shmseg → Type 0) (inv : Local P) where
  -- A request that leaves no request for a name unanswered.
  abbrev Unnaming : Os → Sending → Type 0
  Unnaming os r = (l : Link) → (OnLink P) l → Ensures (OnLink P) (send os r l)

  module _ (os : Os) (m : Master) (c : Calm P m) (p : ℕ) where
    send-All :
        (r : Sending) (i : ℕ)
        → Unnaming os r
        → lookup_pid (pos p) m ≡ at i
        → Ensures (All P) (on_segment i (send os r) m)
    unfolding on_segment
    send-All r i u found =
        let hit : (i < max_slaves) × ((segment i m).pid ≡ pos p) =
          get_assigned_idx_hit (λ g. g.pid) zeroed_shmseg p m.shm.slave_shmseg found in
        put_back-Ensures (OnLink P) (All P) i m (λ l k. put-All P i m l c hit.0 k)
          (send os r (link_at i m)) (u (link_at i m) (c.1 i hit.0))

    checked-All :
        (r : Sending) (s : Slot)
        → Unnaming os r
        → lookup_pid (pos p) m ≡ s
        → Ensures (All P) (send_checked s (send os r) m)
    checked-All r (at i) u e = send-All r i u e
    checked-All r no_idx u e = c.1
    checked-All r out_of_bounds u e = tt

    unchecked-All :
        (r : Sending) (s : Slot)
        → Unnaming os r
        → lookup_pid (pos p) m ≡ s
        → Ensures (All P) (send_unchecked s (send os r) m)
    unchecked-All r (at i) u e = send-All r i u e
    unchecked-All r no_idx u e = tt
    unchecked-All r out_of_bounds u e = tt

  failure-All : (os : Os) (r : Ret) (m : Master) → All P m → Ensures (All P) (nack_failure os r m)
  unfolding on_control send_configurator_nack_response
  failure-All os rtc_success m h = h
  failure-All os rtc_error m h = ground (arith, h)

  nack_unless-All :
      (os : Os) (h : M Master Ret) (m : Master)
      → Ensures (All P) (h m)
      → Ensures (All P) (nack_unless os h m)
  nack_unless-All os h m v =
      Ensures-bind (All P) (All P) h (nack_failure os) m (λ t k. k) (λ r t k. failure-All os r t k)
        v

  connect-All :
      (os : Os) (m : Master)
      → All P m
      → Ensures (All P) (handle_configurator_connect_slave_request os m)
  unfolding handle_configurator_connect_slave_request
  connect-All os m h = ground (arith, h)

  dispatch-All :
      (os : Os) (m : Master) (p : ℕ) (r : Request)
      → Calm P m
      → m.control.affected_slave_pid ≡ pos p
      → Ensures (All P) (dispatch_command os r m)
  unfolding dispatch_command handle_configurator_disconnect_slave_request send
      handle_configurator_start_cycle_slave_request handle_configurator_stop_cycle_slave_request
  dispatch-All os m p stop_master c e = c.1
  dispatch-All os m p connect_slave c e =
      nack_unless-All os (handle_configurator_connect_slave_request os) m (connect-All os m c.1)
  dispatch-All os m p disconnect_slave c e =
      nack_unless-All os (handle_configurator_disconnect_slave_request os) m
        (unchecked-All os m c p disconnect (affected_slot m) (inv.disconnects os) (looked_up m p e))
  dispatch-All os m p start_slave_cycle c e =
      nack_unless-All os (handle_configurator_start_cycle_slave_request os) m
        (checked-All os m c p start_cycle (affected_slot m) (inv.starts_cycle os) (looked_up m p e))
  dispatch-All os m p stop_slave_cycle c e =
      nack_unless-All os (handle_configurator_stop_cycle_slave_request os) m
        (checked-All os m c p stop_cycle (affected_slot m) (inv.stops_cycle os) (looked_up m p e))
  dispatch-All os m p _ c e = c.1

  pub handle_command-Calm :
      (os : Os) (m : Master) (p : ℕ)
      → Calm P m
      → m.control.affected_slave_pid ≡ pos p
      → Ensures (Calm P) (handle_command os m)
  unfolding handle_command
  handle_command-Calm os m p c e =
      Ensures-and IsSound (All P) (handle_command os m) (handle_command-Ensures os m p c.0 e)
        (dispatch-All os m p m.control.request c e)
