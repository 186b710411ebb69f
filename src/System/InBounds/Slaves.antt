-- ===== src/System/InBounds/Slaves.antt =====
-- The same through the handlers of src/slave.c.
use real_time_cyclic.Prelude.{
  ℕ, zero, suc, ◌+◌, ◌-◌, ◌≤◌, true, false, Bool, inl, inr, List, length-set, set, Option-cases,
  arith, ltb, ℤ, ◌-ℤ◌,
}
use real_time_cyclic.Common.{
  Shmseg, SlaveError, error_string, Request, connect_slave, disconnect_slave, change_slave_name,
  start_slave_cycle, stop_slave_cycle, name_index_overflow, sem_post_failed, usleep_failed,
  already_started, allow_post_failed, already_stopped, unrecognized_request,
  master_failed_to_respond, exceeded_cycle,
}
use real_time_cyclic.Common.Text.{c_string, strcpy}
use real_time_cyclic.Common.Text.Buffers.{IsBuffer, set-IsBuffer, erase-IsBuffer, strcpy-IsBuffer}
use real_time_cyclic.Os.{Os, allow_communication_cycle, Ensures, Ensures-bind, when, ◌>>◌, pure}
use real_time_cyclic.Slave.Node.{
  Node, send_master_ack_response, send_master_nack_response, kill, set_error, set_error_seg,
  update_seg, sem_post, sem_wait,
}
use real_time_cyclic.Slave.Name.{
  handle_change_name_slave_request, number_name, erase_names, erase_number,
}
use real_time_cyclic.Slave.Requests.{
  dispatch_master_request, handle_master_request, handle_master_response,
  handle_connect_slave_request, handle_disconnect_slave_request, handle_start_cycle_slave_request,
  handle_stop_cycle_slave_request, handle_unrecognized_request,
}
use real_time_cyclic.Slave.Cycle.{
  Meanwhile, stop_meanwhile, ask_master, Timeval, timeout_segments, next_round, fill_parameters,
  fill_string, await_master, elapsed_us, calculate_parameter_communication_interval,
  send_master_signal_master_parameter_request,
}
use real_time_cyclic.Slave.Cycle.Rounds.{Parts}
use real_time_cyclic.Slave.Signals.{choose_handler}
use real_time_cyclic.Slave.Kept.{renumbered}
use real_time_cyclic.System.InBounds.{InBounds}

abbrev pub NodeInBounds : Node → Type 0
NodeInBounds n = InBounds n.seg

-- An error is set only while the array has room.
pub set_error-InBounds : (e : SlaveError) (g : Shmseg) → InBounds g → InBounds (set_error_seg e g)
unfolding set_error_seg
set_error-InBounds e g h =
    ground (arith, length-set g.shmseg_error g.shmseg_error_current_size (error_string e))

erase_number-IsBuffer :
    (i : ℕ) (name buf : List ℕ)
    → i ≤ 127
    → IsBuffer 127 buf
    → IsBuffer 127 (erase_number i name buf)
unfolding erase_number
erase_number-IsBuffer zero name buf le h = h
erase_number-IsBuffer (suc i) name buf le h = ground (
  arith,
  erase-IsBuffer 127 (suc i) buf le h,
  erase_number-IsBuffer i (set name (suc i) 0) (set buf (suc i) 0),
)

fill_string-IsBuffer :
    (rand_value : ℕ) (buf : List ℕ) → IsBuffer 1023 buf → IsBuffer 1023 (fill_string rand_value buf)
unfolding fill_string
fill_string-IsBuffer rand_value buf h =
    set-IsBuffer 1023 2 _ _ (omega arith)
      (set-IsBuffer 1023 1 _ _ (omega arith) (set-IsBuffer 1023 0 _ buf (omega arith) h))

module _ (os : Os) (n : Node) (h : InBounds n.seg) where
  connect-InBounds : Ensures NodeInBounds (handle_connect_slave_request os n)
  unfolding handle_connect_slave_request send_master_ack_response kill
  connect-InBounds = elim (Option-cases (strcpy n.seg.name (c_string n.self.name))) [
    | inl e ↦ simp e tt
    | inr (name, e) ↦
        simp e (ground (arith, strcpy-IsBuffer 127 n.seg.name (c_string n.self.name) e h.name_ends))
  ]

  disconnect-InBounds : Ensures NodeInBounds (handle_disconnect_slave_request os n)
  unfolding handle_disconnect_slave_request send_master_ack_response kill
  disconnect-InBounds = ground arith

  start-InBounds : Ensures NodeInBounds (handle_start_cycle_slave_request os n)
  unfolding handle_start_cycle_slave_request send_master_ack_response kill send_master_nack_response
      sem_post
  start-InBounds = ground (
    arith,
    set_error-InBounds already_started n.seg h,
    set_error-InBounds allow_post_failed (record (n.seg) { cycle_started = true }),
  )

  stop-InBounds : Ensures NodeInBounds (handle_stop_cycle_slave_request os n)
  unfolding handle_stop_cycle_slave_request send_master_ack_response kill send_master_nack_response
      sem_wait
  stop-InBounds = ground (arith, set_error-InBounds already_stopped n.seg h)

  unrecognized-InBounds : Ensures NodeInBounds (handle_unrecognized_request os n)
  unfolding handle_unrecognized_request send_master_nack_response kill
  unrecognized-InBounds = ground (arith, set_error-InBounds unrecognized_request n.seg h)

  response-InBounds : Ensures NodeInBounds (handle_master_response os n)
  unfolding handle_master_response
  response-InBounds = ground arith

  number-InBounds : Ensures NodeInBounds (number_name os n)
  unfolding number_name send_master_ack_response kill
  number-InBounds = elim (Option-cases (strcpy n.self.name (renumbered n))) [
    | inl e ↦ simp e tt
    | inr (name, e) ↦ elim (Option-cases (strcpy n.seg.name (c_string name))) [
      | inl e' ↦ simp (e, e') tt
      | inr (name', e') ↦
          simp (e, e')
            (ground (arith, strcpy-IsBuffer 127 n.seg.name (c_string name) e' h.name_ends))
    ]
  ]

  refuse-InBounds :
      Ensures NodeInBounds ((set_error name_index_overflow >> send_master_nack_response os) n)
  unfolding send_master_nack_response kill
  refuse-InBounds = ground (arith, set_error-InBounds name_index_overflow n.seg h)

  erase-InBounds : (b : Bool) → Ensures NodeInBounds (when b erase_names n)
  unfolding erase_names
  erase-InBounds true =
      ground (arith, erase_number-IsBuffer 127 n.self.name n.seg.name (omega arith) h.name_ends)
  erase-InBounds false = h

module _ (os : Os) (n : Node) (h : InBounds n.seg) where
  rename-InBounds : Ensures NodeInBounds (handle_change_name_slave_request os n)
  unfolding handle_change_name_slave_request
  rename-InBounds =
      Ensures-bind NodeInBounds NodeInBounds (when (ltb 0 n.self.change_name_idx) erase_names) _ n
        (λ t k. k) (λ _ t k. ground (arith, refuse-InBounds os t k, number-InBounds os t k))
        (erase-InBounds os n h (ltb 0 n.self.change_name_idx))

  dispatch-InBounds : (r : Request) → Ensures NodeInBounds (dispatch_master_request os r n)
  unfolding dispatch_master_request
  dispatch-InBounds connect_slave = connect-InBounds os n h
  dispatch-InBounds change_slave_name = rename-InBounds
  dispatch-InBounds disconnect_slave = disconnect-InBounds os n h
  dispatch-InBounds start_slave_cycle = start-InBounds os n h
  dispatch-InBounds stop_slave_cycle = stop-InBounds os n h
  dispatch-InBounds _ = unrecognized-InBounds os n h

  pub choose_handler-InBounds : Ensures NodeInBounds (choose_handler os n)
  unfolding choose_handler handle_master_request
  choose_handler-InBounds =
      ground (arith, response-InBounds os n h, dispatch-InBounds n.seg.req_m_to_s)

module _ (os : Os) where
  wait-InBounds :
      (n : Node) → InBounds n.seg → Ensures NodeInBounds (sem_wait os allow_communication_cycle n)
  unfolding sem_wait
  wait-InBounds n h = ground arith

  late-InBounds :
      (sleep : ℤ) (n : Node)
      → InBounds n.seg
      → Ensures NodeInBounds ((set_error usleep_failed >> pure (next_round sleep)) n)
  late-InBounds sleep n h = set_error-InBounds usleep_failed n.seg h

  fill-InBounds :
      (rand_value : ℕ) (n : Node)
      → InBounds n.seg
      → Ensures NodeInBounds (fill_parameters rand_value n)
  unfolding fill_parameters
  fill-InBounds rand_value n h =
      ground (arith, fill_string-IsBuffer rand_value n.seg.string_value h.string_ends)

  calculate-InBounds :
      (now : Timeval) (n : Node)
      → InBounds n.seg
      → Ensures NodeInBounds (calculate_parameter_communication_interval now n)
  unfolding calculate_parameter_communication_interval
  calculate-InBounds now n h = ground (
    arith,
    set_error-InBounds
        (exceeded_cycle
          (elapsed_us now n.self.last_sec n.self.last_usec -ℤ n.seg.communication_cycle_us))
        n.seg h,
  )

  post-InBounds :
      (n : Node) → InBounds n.seg → Ensures NodeInBounds (sem_post os allow_communication_cycle n)
  unfolding sem_post
  post-InBounds n h = ground arith

  stopped-InBounds :
      (b : Bool) (n : Node)
      → InBounds n.seg
      → Ensures NodeInBounds (
          when b
            (do set_error sem_post_failed; update_seg (λ g. record g { cycle_started = false }))
            n)
  stopped-InBounds true n h = ground (arith, set_error-InBounds sem_post_failed n.seg h)
  stopped-InBounds false n h = h

  await-InBounds :
      (answers : ℕ → ℕ) (left : ℕ) (n : Node)
      → InBounds n.seg
      → Ensures NodeInBounds (await_master answers left n)
  unfolding await_master
  await-InBounds answers zero n h =
      ground (arith, set_error-InBounds master_failed_to_respond n.seg h)
  await-InBounds answers (suc left) n h =
      let u : Node = record n {
        seg = record (n.seg) {
          sem_s_to_m_request = n.seg.sem_s_to_m_request + answers (timeout_segments - suc left);
        };
      } in
      ground (arith, await-InBounds answers left u)

  stop_meanwhile-InBounds :
      (stops : Bool) (n : Node) → InBounds n.seg → Ensures NodeInBounds (stop_meanwhile os stops n)
  unfolding stop_meanwhile handle_stop_cycle_slave_request sem_wait send_master_ack_response
      send_master_nack_response kill
  stop_meanwhile-InBounds true n h = ground (arith, h, set_error-InBounds already_stopped n.seg h)
  stop_meanwhile-InBounds false n h = h

  send-InBounds :
      (answers : Meanwhile) (n : Node)
      → InBounds n.seg
      → Ensures NodeInBounds (send_master_signal_master_parameter_request os answers n)
  unfolding send_master_signal_master_parameter_request ask_master kill sem_post
  send-InBounds answers n h =
      Ensures-bind NodeInBounds NodeInBounds (await_master answers.posts timeout_segments) _ n
        (λ t k. k)
        (λ _ t k.
          Ensures-bind NodeInBounds NodeInBounds (stop_meanwhile os answers.stops) _ t (λ u j. j)
            (λ _ u j. ground (arith, j)) (stop_meanwhile-InBounds answers.stops t k))
        (await-InBounds answers.posts timeout_segments n h)

  pub round_parts : Parts os NodeInBounds
  round_parts = record {
    waits = wait-InBounds;
    is_late = late-InBounds;
    fills = fill-InBounds;
    calculates = calculate-InBounds;
    posts = post-InBounds;
    stops = stopped-InBounds;
    sends = send-InBounds;
  }
