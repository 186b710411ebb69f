-- ===== src/System/InBounds/Safety.antt =====
-- No handler of the master leaves an array, in any state that is reached.
use real_time_cyclic.Prelude.{
  ℕ, ◌<◌, ◌≡◌, refl, sym, subst, arith, length, length-set, ◌∙◌, get_or-set_self, ℤ, pos,
}
use real_time_cyclic.Common.{ControlShm, Ret, rtc_success, rtc_error, max_slaves, zeroed_shmseg}
use real_time_cyclic.Common.Text.Buffers.{replicate-IsBuffer}
use real_time_cyclic.Table.{Slot, at, no_idx, out_of_bounds}
use real_time_cyclic.Table.Laws.{assign_idx_hit, searches_in_bounds}
use real_time_cyclic.Os.{
  Os, Outcome, done, blocked, fault, Survives, Survives-bind, Survives-Ensures, ◌>>◌,
}
use real_time_cyclic.Master.Link.{Link, init_slave_shmseg_shared_memory}
use real_time_cyclic.Master.Request.{handle_slave_request, handle_slave_request_errors}
use real_time_cyclic.Master.Reply.{handle_slave_response}
use real_time_cyclic.Master.State.{
  Master, segment, link_at, write_link, put_back, on_segment, must_change_name,
}
use real_time_cyclic.Master.Init.{init_semaphores}
use real_time_cyclic.Master.Init.Start.{fresh, segment-fresh}
use real_time_cyclic.Master.Processor.{
  wait_signal, choose_handler, process_signal, claim, claim_slot, admit_slot, admit, after_connect,
}
use real_time_cyclic.Master.Processor.Admit.{lookup_pid, free_slot}
use real_time_cyclic.Master.Send.{send_connect_slave_request}
use real_time_cyclic.Slave.Cycle.Rounds.{cycle_round-Ensures}
use real_time_cyclic.System.Local.{Local, All}
use real_time_cyclic.System.Steps.{Reach}
use real_time_cyclic.System.Reachable.{reachable-Calm, reachable-All}
use real_time_cyclic.System.InBounds.{
  InBounds, LinkInBounds, handle_slave_response-InBounds, handle_slave_request-InBounds,
  handle_slave_request_errors-InBounds, send_connect-InBounds, send_disconnect-InBounds,
  send_start_cycle-InBounds, send_stop_cycle-InBounds,
}
use real_time_cyclic.System.InBounds.Slaves.{NodeInBounds, choose_handler-InBounds, round_parts}

fresh-InBounds : InBounds fresh
unfolding fresh init_semaphores init_slave_shmseg_shared_memory zeroed_shmseg
fresh-InBounds = record {
  name_ends = replicate-IsBuffer 127;
  string_ends = replicate-IsBuffer 1023;
  known_ends = replicate-IsBuffer 1023;
  errors_full = refl;
  errors_counted = omega arith;
}

pub InBounds-Local : Local InBounds
InBounds-Local = record {
  starts = λ own_pid control i lt.
      subst InBounds (sym (segment-fresh own_pid control i lt)) fresh-InBounds;
  claims = λ g p off h. ground arith;
  connects = λ os l off h. Survives-Ensures LinkInBounds _ (send_connect-InBounds os l h);
  disconnects = λ os l h. Survives-Ensures LinkInBounds _ (send_disconnect-InBounds os l h);
  starts_cycle = λ os l h. Survives-Ensures LinkInBounds _ (send_start_cycle-InBounds os l h);
  stops_cycle = λ os l h. Survives-Ensures LinkInBounds _ (send_stop_cycle-InBounds os l h);
  responds = λ os posts must l h.
      Survives-Ensures LinkInBounds _ (handle_slave_response-InBounds os must l h);
  requests = λ os l h. Survives-Ensures LinkInBounds _ (handle_slave_request-InBounds os l h);
  reports = λ l h. Survives-Ensures LinkInBounds _ (handle_slave_request_errors-InBounds l h);
  answers = λ os n h. choose_handler-InBounds os n h;
  cycles = λ os posts rand_value now sleep_us n h.
      cycle_round-Ensures os NodeInBounds (round_parts os) posts rand_value now sleep_us n h;
  configures = λ g requested cycle_us h. ground arith;
}

put_back-Survives :
    {A : Type 0} (P : Link → Type 0) (Q : Master → Type 0) (i : ℕ) (m : Master)
    → ((l : Link) → P l → Q (write_link i m l))
    → (o : Outcome Link A) → Survives P o
    → Survives Q (put_back i m o)
unfolding put_back
put_back-Survives P Q i m step (done a l) h = step l h
put_back-Survives P Q i m step (blocked l) h = step l h
put_back-Survives P Q i m step fault h = h

-- The segment that a thread serves stands in a whole table.
abbrev Stands : ℕ → Master → Type 0
Stands i m = (length m.shm.slave_shmseg ≡ max_slaves) × (i < max_slaves) × InBounds (segment i m)

module _ (os : Os) (i : ℕ) where
  write-Stands :
      (m : Master) → Stands i m → (l : Link) → LinkInBounds l → Stands i (write_link i m l)
  write-Stands m v l h = (
    length-set m.shm.slave_shmseg i l.seg ∙ v.0,
    v.1,
    subst InBounds
        (sym (get_or-set_self m.shm.slave_shmseg i l.seg zeroed_shmseg (omega (arith, v.0, v.1))))
        h,
  )

  response-Survives :
      (m : Master)
      → Stands i m
      → Survives (Stands i) (on_segment i (handle_slave_response os (must_change_name i m)) m)
  unfolding on_segment
  response-Survives m v =
      put_back-Survives LinkInBounds (Stands i) i m (write-Stands m v)
        (handle_slave_response os (must_change_name i m) (link_at i m))
        (handle_slave_response-InBounds os (must_change_name i m) (link_at i m) v.2)

  request-Survives :
      (m : Master) → Stands i m → Survives (Stands i) (on_segment i (handle_slave_request os) m)
  unfolding on_segment
  request-Survives m v =
      put_back-Survives LinkInBounds (Stands i) i m (write-Stands m v)
        (handle_slave_request os (link_at i m)) (handle_slave_request-InBounds os (link_at i m) v.2)

  errors-Survives :
      (m : Master) → Stands i m → Survives (Stands i) (on_segment i handle_slave_request_errors m)
  unfolding on_segment
  errors-Survives m v =
      put_back-Survives LinkInBounds (Stands i) i m (write-Stands m v)
        (handle_slave_request_errors (link_at i m))
        (handle_slave_request_errors-InBounds (link_at i m) v.2)

  choose_handler-Survives : (m : Master) → Stands i m → Survives (Stands i) (choose_handler os i m)
  unfolding choose_handler
  choose_handler-Survives m v = ground (arith, v, response-Survives m v, request-Survives m v)

  after_errors :
      (m : Master)
      → Stands i m
      → Survives (Stands i) ((on_segment i handle_slave_request_errors >> choose_handler os i) m)
  after_errors m v =
      Survives-bind (Stands i) (Stands i) (on_segment i handle_slave_request_errors)
        (λ _. choose_handler os i) m (λ t k. k) (λ a t k. choose_handler-Survives t k)
        (errors-Survives m v)

  wait_signal-Survives : (m : Master) → Stands i m → Survives (Stands i) (wait_signal os i m)
  unfolding wait_signal
  wait_signal-Survives m v = ground (arith, v)

  process_signal-Survives : (m : Master) → Stands i m → Survives (Stands i) (process_signal os i m)
  unfolding process_signal
  process_signal-Survives m v =
      Survives-bind (Stands i) (Stands i) (wait_signal os i) _ m (λ t k. k)
        (λ failed t k. ground (arith, k, after_errors t k, choose_handler-Survives t k))
        (wait_signal-Survives m v)

-- What a handler that does not fault leaves behind is of no matter here.
abbrev pub Runs : {A : Type 0} → Outcome Master A → Type 0
Runs o = Survives (λ _. Unit {0}) o

Survives-Runs : {A : Type 0} (Q : Master → Type 0) (o : Outcome Master A) → Survives Q o → Runs o
Survives-Runs Q (done a m) h = tt
Survives-Runs Q (blocked m) h = tt
Survives-Runs Q fault h = h

connect-Runs :
    (os : Os) (i : ℕ) (m : Master)
    → InBounds (segment i m)
    → Runs (on_segment i (send_connect_slave_request os) m)
unfolding on_segment
connect-Runs os i m h =
    put_back-Survives LinkInBounds (λ _. Unit {0}) i m (λ l k. tt)
      (send_connect_slave_request os (link_at i m)) (send_connect-InBounds os (link_at i m) h)

module _ (os : Os) (p : ℕ) (m : Master) (full : length m.shm.slave_shmseg ≡ max_slaves)
    (bounds : All InBounds m) where
  claim-InBounds : (i : ℕ) → i < max_slaves → InBounds (segment i (claim i (pos p) m))
  unfolding claim
  claim-InBounds i lt =
      subst InBounds
        (sym (
          get_or-set_self m.shm.slave_shmseg i (record (segment i m) { pid = pos p }) zeroed_shmseg
            (omega (arith, full))))
        (let h : InBounds (segment i m) = bounds i lt in ground (arith, h))

  claim_slot-Runs : (s : Slot) → free_slot (pos p) m ≡ s → Runs (claim_slot os (pos p) s m)
  unfolding claim_slot
  claim_slot-Runs (at i) e =
      let lt = (assign_idx_hit (λ g. g.pid) zeroed_shmseg p m.shm.slave_shmseg e).0 in
      Survives-bind (λ _. Unit {0}) (λ _. Unit {0}) (on_segment i (send_connect_slave_request os))
        (after_connect i) (claim i (pos p) m) (λ t k. tt) (λ r t k. after-Runs i r t)
        (connect-Runs os i (claim i (pos p) m) (claim-InBounds i lt))
    where
      after-Runs : (j : ℕ) (r : Ret) (t : Master) → Runs (after_connect j r t)
      after-Runs j rtc_success t = tt
      after-Runs j rtc_error t = tt
  claim_slot-Runs no_idx e = tt
  claim_slot-Runs out_of_bounds e =
      absurd ((searches_in_bounds (λ g. g.pid) zeroed_shmseg p m.shm.slave_shmseg).1 e)

  admit_slot-Runs : (s : Slot) → lookup_pid (pos p) m ≡ s → Runs (admit_slot os (pos p) s m)
  unfolding admit_slot
  admit_slot-Runs (at i) e = tt
  admit_slot-Runs no_idx e = claim_slot-Runs (free_slot (pos p) m) refl
  admit_slot-Runs out_of_bounds e =
      absurd ((searches_in_bounds (λ g. g.pid) zeroed_shmseg p m.shm.slave_shmseg).0 e)

  admit-Runs : Runs (admit os (pos p) m)
  unfolding admit
  admit-Runs = admit_slot-Runs (lookup_pid (pos p) m) refl

module _ (own_pid : ℤ) (control : ControlShm) (m : Master) (r : Reach own_pid control m) where
  -- In every state that the program reaches before a handler writes outside an array, in every
  -- segment: the name, the text parameter and the last known text each end inside their buffers of
  -- SLAVE_NAME_SIZE and STRING_SIZE bytes, and the number of errors is at most SHMSEG_ERROR_SIZE, the
  -- length of their array.
  pub reachable-InBounds : All InBounds m
  reachable-InBounds = reachable-All own_pid control InBounds InBounds-Local m r

  -- In every state that the program reaches before a handler writes outside an array, whatever calls
  -- fail: a round of a processor thread for any segment, and a new thread for any process, return or
  -- sleep, and write no array or buffer past its end.
  pub reachable-Runs :
      (os : Os)
      → ((i : ℕ) → i < max_slaves → Runs (process_signal os i m))
        × ((p : ℕ) → Runs (admit os (pos p) m))
  reachable-Runs os =
      let full : length m.shm.slave_shmseg ≡ max_slaves =
        (reachable-Calm own_pid control m r).0.full in
      (
        λ i lt.
            Survives-Runs (Stands i) (process_signal os i m)
              (process_signal-Survives os i m (full, lt, reachable-InBounds i lt)),
        λ p. admit-Runs os p m full reachable-InBounds,
      )
