-- ===== src/System/Serving.antt =====
-- src/master.c: a processor thread, and a property that the handlers keep.
use real_time_cyclic.Prelude.{ℕ, ◌≡◌, false, arith}
use real_time_cyclic.Common.{Shmseg}
use real_time_cyclic.Os.{Os, m_to_s_request, Ensures, Ensures-bind, Ensures-and, ◌>>◌}
use real_time_cyclic.Master.Request.{handle_slave_request, handle_slave_request_errors}
use real_time_cyclic.Master.Reply.{handle_slave_response}
use real_time_cyclic.Master.State.{Master, link_at, on_segment, must_change_name}
use real_time_cyclic.Master.Processor.{wait_signal, choose_handler, process_signal}
use real_time_cyclic.Master.Processor.Invariant.{
  IsSound, Serves, put_back-Ensures, errors-Serves, wait_signal-Serves, process_signal-IsSound,
}
use real_time_cyclic.System.Local.{Local, OnLink, All, Calm, put-All}

module _ (P : Shmseg → Type 0) (inv : Local P) where
  module _ (os : Os) (posts : os.sem_post_fails m_to_s_request ≡ false) (i : ℕ) where
    abbrev Served : Master → Type 0
    Served m = Serves i m × (All P) m

    response-All :
        (m : Master)
        → Served m
        → Ensures (All P) (on_segment i (handle_slave_response os (must_change_name i m)) m)
    unfolding on_segment
    response-All m v =
        put_back-Ensures (OnLink P) (All P) i m (λ l k. put-All P i m l (v.0.0, v.1) v.0.1 k)
          (handle_slave_response os (must_change_name i m) (link_at i m))
          (inv.responds os posts (must_change_name i m) (link_at i m) (v.1 i v.0.1))

    request-All :
        (m : Master) → Served m → Ensures (All P) (on_segment i (handle_slave_request os) m)
    unfolding on_segment
    request-All m v =
        put_back-Ensures (OnLink P) (All P) i m (λ l k. put-All P i m l (v.0.0, v.1) v.0.1 k)
          (handle_slave_request os (link_at i m)) (inv.requests os (link_at i m) (v.1 i v.0.1))

    errors-All :
        (m : Master) → Served m → Ensures (All P) (on_segment i handle_slave_request_errors m)
    unfolding on_segment
    errors-All m v =
        put_back-Ensures (OnLink P) (All P) i m (λ l k. put-All P i m l (v.0.0, v.1) v.0.1 k)
          (handle_slave_request_errors (link_at i m)) (inv.reports (link_at i m) (v.1 i v.0.1))

    choose_handler-All : (m : Master) → Served m → Ensures (All P) (choose_handler os i m)
    unfolding choose_handler
    choose_handler-All m v = ground (arith, v.1, response-All m v, request-All m v)

    wait_signal-All : (m : Master) → Served m → Ensures (All P) (wait_signal os i m)
    unfolding wait_signal
    wait_signal-All m v = ground (arith, v.1)

    after_errors :
        (m : Master)
        → Served m
        → Ensures (All P) ((on_segment i handle_slave_request_errors >> choose_handler os i) m)
    after_errors m v =
        Ensures-bind Served (All P) (on_segment i handle_slave_request_errors)
          (λ _. choose_handler os i) m (λ t k. k.1) (λ a t k. choose_handler-All t k)
          (Ensures-and (Serves i) (All P) (on_segment i handle_slave_request_errors m)
            (errors-Serves os i m v.0) (errors-All m v))

    process_signal-All : (m : Master) → Served m → Ensures (All P) (process_signal os i m)
    unfolding process_signal
    process_signal-All m v =
        Ensures-bind Served (All P) (wait_signal os i) _ m (λ t k. k.1)
          (λ failed t k. ground (arith, k.1, after_errors t k, choose_handler-All t k))
          (Ensures-and (Serves i) (All P) (wait_signal os i m) (wait_signal-Serves os i m v.0)
            (wait_signal-All m v))

    pub process_signal-Calm : (m : Master) → Served m → Ensures (Calm P) (process_signal os i m)
    process_signal-Calm m v =
        Ensures-and IsSound (All P) (process_signal os i m) (process_signal-IsSound os i m v.0)
          (process_signal-All m v)
