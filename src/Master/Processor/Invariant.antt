-- ===== src/Master/Processor/Invariant.antt =====
-- The table of segments through the loop of a processor thread, whatever calls fail.
use real_time_cyclic.Prelude.{ℕ, ◌<◌, ◌≡◌, sym, ◌≢◌, inl, arith, ap, ◌∙◌, get_or-set_self}
use real_time_cyclic.Common.{Shmseg, zeroed_shmseg, no_pid, max_slaves}
use real_time_cyclic.Os.{Os, Outcome, done, blocked, fault, Ensures, Ensures-bind, ◌>>◌}
use real_time_cyclic.Master.Link.{Link}
use real_time_cyclic.Master.Request.{handle_slave_request, handle_slave_request_errors}
use real_time_cyclic.Master.Request.Parameters.{Undisturbed, handle_slave_request-Undisturbed}
use real_time_cyclic.Master.Request.Errors.{handle_errors-Undisturbed}
use real_time_cyclic.Master.Reply.{handle_slave_response}
use real_time_cyclic.Master.Reply.Connection.{Keeps, handle_slave_response-Keeps}
use real_time_cyclic.Master.State.{
  Master, segment, link_at, write_link, put_back, on_segment, must_change_name,
}
use real_time_cyclic.Master.State.Tables.{TableOk, set-TableOk}
use real_time_cyclic.Master.Processor.{wait_signal, choose_handler, process_signal}

abbrev pub IsSound : Master → Type 0
IsSound m = TableOk m.shm.slave_shmseg

-- A statement about a handler of one segment, on the whole state.
pub put_back-Ensures :
    {A : Type 0} (P : Link → Type 0) (Q : Master → Type 0) (i : ℕ) (m : Master)
    → ((l : Link) → P l → Q (write_link i m l))
    → (o : Outcome Link A) → Ensures P o
    → Ensures Q (put_back i m o)
unfolding put_back
put_back-Ensures P Q i m step (done a l) h = step l h
put_back-Ensures P Q i m step (blocked l) h = step l h
put_back-Ensures P Q i m step fault h = tt

-- The thread serves a taken segment of a sound table.
abbrev pub Serves : ℕ → Master → Type 0
Serves i m = IsSound m × (i < max_slaves) × ((segment i m).pid ≢ no_pid)

module _ (os : Os) (i : ℕ) where
  response-IsSound :
      (m : Master)
      → Serves i m
      → Ensures IsSound (on_segment i (handle_slave_response os (must_change_name i m)) m)
  unfolding on_segment
  response-IsSound m v =
      put_back-Ensures (Keeps (must_change_name i m) (link_at i m)) IsSound i m
        (λ l k. set-TableOk m.shm.slave_shmseg i l.seg v.0 v.1 v.2 (unfold must_change_name in k))
        (handle_slave_response os (must_change_name i m) (link_at i m))
        (handle_slave_response-Keeps os (must_change_name i m) (link_at i m))

  request-IsSound :
      (m : Master) → Serves i m → Ensures IsSound (on_segment i (handle_slave_request os) m)
  unfolding on_segment
  request-IsSound m v =
      put_back-Ensures (Undisturbed (link_at i m)) IsSound i m
        (λ l k. set-TableOk m.shm.slave_shmseg i l.seg v.0 v.1 v.2 (inl (k.0, k.1)))
        (handle_slave_request os (link_at i m)) (handle_slave_request-Undisturbed os (link_at i m))

  pub errors-Serves :
      (m : Master) → Serves i m → Ensures (Serves i) (on_segment i handle_slave_request_errors m)
  unfolding on_segment
  errors-Serves m v =
      put_back-Ensures (Undisturbed (link_at i m)) (Serves i) i m
        (λ l k. (
          set-TableOk m.shm.slave_shmseg i l.seg v.0 v.1 v.2 (inl (k.0, k.1)),
          v.1,
          λ e. v.2 (sym k.0.0 ∙ sym (ap (λ (g : Shmseg). g.pid) (here l)) ∙ e),
        ))
        (handle_slave_request_errors (link_at i m)) (handle_errors-Undisturbed (link_at i m))
    where
      here : (l : Link) → segment i (write_link i m l) ≡ l.seg
      here l = get_or-set_self m.shm.slave_shmseg i l.seg zeroed_shmseg (omega (arith, v.0.full))

  choose_handler-IsSound : (m : Master) → Serves i m → Ensures IsSound (choose_handler os i m)
  unfolding choose_handler
  choose_handler-IsSound m v = ground (arith, response-IsSound m v, request-IsSound m v)

  pub wait_signal-Serves : (m : Master) → Serves i m → Ensures (Serves i) (wait_signal os i m)
  unfolding wait_signal
  wait_signal-Serves m v = ground arith

  after_errors :
      (m : Master)
      → Serves i m
      → Ensures IsSound ((on_segment i handle_slave_request_errors >> choose_handler os i) m)
  after_errors m v =
      Ensures-bind (Serves i) IsSound (on_segment i handle_slave_request_errors)
        (λ _. choose_handler os i) m (λ t k. k.0) (λ a t k. choose_handler-IsSound t k)
        (errors-Serves m v)

  -- A round of the thread that serves a taken segment keeps the table sound: every pid stands once,
  -- a connected segment has an owner, and no two connected slaves have the same name.
  pub process_signal-IsSound : (m : Master) → Serves i m → Ensures IsSound (process_signal os i m)
  unfolding process_signal
  process_signal-IsSound m v =
      Ensures-bind (Serves i) IsSound (wait_signal os i) _ m (λ t k. k.0)
        (λ failed t k. ground (arith, after_errors t k, choose_handler-IsSound t k))
        (wait_signal-Serves m v)
