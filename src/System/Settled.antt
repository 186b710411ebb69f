-- ===== src/System/Settled.antt =====
-- Requests for a name that are answered before the slave is connected.
use real_time_cyclic.Prelude.{◌≡◌, ◌≢◌, refl, true, false, Bool, Bool-cases, inl, inr, arith}
use real_time_cyclic.Common.{
  Shmseg, Request, connect_slave, change_slave_name, disconnect_slave, start_slave_cycle,
  stop_slave_cycle, Response, ack, nack, response_size,
}
use real_time_cyclic.Os.{Os, m_to_s_request, Ensures, Ensures-map}
use real_time_cyclic.Master.Link.{Link}
use real_time_cyclic.Master.Send.{
  send_connect_slave_request, send_disconnect_slave_request, send_start_cycle_slave_request,
  send_stop_cycle_slave_request,
}
use real_time_cyclic.Master.Send.Requests.{send, disconnect, start_cycle, stop_cycle}
use real_time_cyclic.Master.Reply.{handle_slave_response, connected_response, unconnected_response}
use real_time_cyclic.Master.Request.{handle_slave_request, handle_slave_request_errors}
use real_time_cyclic.Master.Request.Parameters.{Undisturbed, handle_slave_request-Undisturbed}
use real_time_cyclic.Master.Request.Errors.{handle_errors-Undisturbed}
use real_time_cyclic.Master.Init.Start.{init-IsFree}
use real_time_cyclic.Slave.Cycle.{cycle_round}
use real_time_cyclic.Slave.Signals.{choose_handler}
use real_time_cyclic.Slave.Kept.{Kept, KeptBy, Settled, choose_handler-Kept}
use real_time_cyclic.Slave.Kept.Rounds.{round-Kept}
use real_time_cyclic.System.Local.{Local, OnNode}

abbrev pub Settles : Link → Type 0
Settles l = Settled l.seg

module _ (os : Os) (posts : os.sem_post_fails m_to_s_request ≡ false) (must : Bool) (l : Link)
    (h : Settles l) where
  connected-Settles :
      (req : Request) (res : Response)
      → l.seg.req_m_to_s ≡ req
      → Ensures Settles (connected_response os must req res l)
  unfolding connected_response
  connected-Settles disconnect_slave nack e = ground (arith, posts, e)
  connected-Settles disconnect_slave ack e = ground (arith, posts, e)
  connected-Settles disconnect_slave response_size e = ground (arith, posts, e)
  connected-Settles start_slave_cycle nack e = ground (arith, posts, e)
  connected-Settles start_slave_cycle ack e = ground (arith, posts, e)
  connected-Settles start_slave_cycle response_size e = ground (arith, posts, e)
  connected-Settles stop_slave_cycle nack e = ground (arith, posts, e)
  connected-Settles stop_slave_cycle ack e = ground (arith, posts, e)
  connected-Settles stop_slave_cycle response_size e = ground (arith, posts, e)
  connected-Settles _ res e = ground (arith, posts, e)

  unconnected-Settles :
      (req : Request) (res : Response)
      → l.seg.is_connected ≡ false
      → Ensures Settles (unconnected_response os must req res l)
  unfolding unconnected_response
  unconnected-Settles connect_slave nack e = ground (arith, posts, e)
  unconnected-Settles connect_slave ack e = ground (arith, posts, e)
  unconnected-Settles connect_slave response_size e = ground (arith, posts, e)
  unconnected-Settles change_slave_name nack e = ground (arith, posts, e)
  unconnected-Settles change_slave_name ack e = ground (arith, posts, e)
  unconnected-Settles change_slave_name response_size e = ground (arith, posts, e)
  unconnected-Settles _ res e = ground (arith, posts, e)

  pub handle_slave_response-Settles : Ensures Settles (handle_slave_response os must l)
  unfolding handle_slave_response
  handle_slave_response-Settles = elim (Bool-cases l.seg.is_connected) [
    | inl c ↦ simp c (connected-Settles l.seg.req_m_to_s l.seg.res_s_to_m refl)
    | inr n ↦ simp n (unconnected-Settles l.seg.req_m_to_s l.seg.res_s_to_m n)
  ]

-- The requests to a slave that is connected.
pub disconnect-Settles : (os : Os) (l : Link) → Settles l → Ensures Settles (send os disconnect l)
unfolding send send_disconnect_slave_request
disconnect-Settles os l h = ground (arith, h)

pub start_cycle-Settles : (os : Os) (l : Link) → Settles l → Ensures Settles (send os start_cycle l)
unfolding send send_start_cycle_slave_request
start_cycle-Settles os l h = ground (arith, h)

pub stop_cycle-Settles : (os : Os) (l : Link) → Settles l → Ensures Settles (send os stop_cycle l)
unfolding send send_stop_cycle_slave_request
stop_cycle-Settles os l h = ground (arith, h)

connect-Settles :
    (os : Os) (l : Link)
    → l.seg.is_connected ≢ true
    → Ensures Settles (send_connect_slave_request os l)
unfolding send_connect_slave_request
connect-Settles os l off = ground (arith, off)

Undisturbed-Settles : (l l' : Link) → Undisturbed l l' → Settles l → Settles l'
Undisturbed-Settles l l' u h = ground (arith, u, h)

pub Kept-Settled : (g g' : Shmseg) → Kept g g' → Settled g → Settled g'
Kept-Settled g g' k h = ground (arith, k, h)

pub Settled-Local : Local Settled
Settled-Local = record {
  starts =
      λ own_pid control i lt on. ground (arith, (init-IsFree own_pid control i lt).unconnected);
  claims = λ g p off h on. absurd (off on);
  connects = λ os l off h. connect-Settles os l off;
  disconnects = disconnect-Settles;
  starts_cycle = start_cycle-Settles;
  stops_cycle = stop_cycle-Settles;
  responds = λ os posts must l h. handle_slave_response-Settles os posts must l h;
  requests = λ os l h.
      Ensures-map (Undisturbed l) Settles (handle_slave_request os l)
        (λ l' u. Undisturbed-Settles l l' u h) (handle_slave_request-Undisturbed os l);
  reports = λ l h.
      Ensures-map (Undisturbed l) Settles (handle_slave_request_errors l)
        (λ l' u. Undisturbed-Settles l l' u h) (handle_errors-Undisturbed l);
  answers = λ os n h.
      Ensures-map (KeptBy n) (OnNode Settled) (choose_handler os n)
        (λ n' k. Kept-Settled n.seg n'.seg k h) (choose_handler-Kept os n h);
  cycles = λ os posts rand_value now sleep_us n h.
      Ensures-map (KeptBy n) (OnNode Settled) (cycle_round os posts rand_value now sleep_us n)
        (λ n' k. Kept-Settled n.seg n'.seg k h) (round-Kept n os posts rand_value now sleep_us);
  configures = λ g requested cycle_us h. h;
}
