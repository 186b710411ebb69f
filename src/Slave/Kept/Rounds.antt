-- ===== src/Slave/Kept/Rounds.antt =====
-- The communication cycle thread: what one round of it may do to the slave's segment.
use real_time_cyclic.Prelude.{ℕ, zero, suc, Bool, ◌+◌, ◌-◌, true, false, arith, ℤ}
use real_time_cyclic.Common.{sem_post_failed, usleep_failed}
use real_time_cyclic.Os.{Os, allow_communication_cycle, Ensures, Ensures-bind, when, ◌>>◌, pure}
use real_time_cyclic.Slave.Node.{
  Node, kill, send_master_ack_response, send_master_nack_response, set_error, set_error_seg,
  update_seg, sem_post, sem_wait,
}
use real_time_cyclic.Slave.Cycle.{
  Meanwhile, stop_meanwhile, ask_master, Timeval, next_round, timeout_segments, cycle_round,
  fill_parameters, await_master, calculate_parameter_communication_interval,
  send_master_signal_master_parameter_request,
}
use real_time_cyclic.Slave.Requests.{handle_stop_cycle_slave_request}
use real_time_cyclic.Slave.Cycle.Rounds.{Parts, cycle_round-Ensures}
use real_time_cyclic.Slave.Kept.{KeptBy, Kept-refl}

module _ (n : Node) where
  fill-Kept :
      (rand_value : ℕ) (t : Node) → KeptBy n t → Ensures (KeptBy n) (fill_parameters rand_value t)
  unfolding fill_parameters
  fill-Kept rand_value t k = ground (arith, k)

  calculate-Kept :
      (now : Timeval) (t : Node)
      → KeptBy n t
      → Ensures (KeptBy n) (calculate_parameter_communication_interval now t)
  unfolding calculate_parameter_communication_interval set_error_seg
  calculate-Kept now t k = ground (arith, k)

  await-Kept :
      (posts : ℕ → ℕ) (left : ℕ) (t : Node)
      → KeptBy n t
      → Ensures (KeptBy n) (await_master posts left t)
  unfolding await_master set_error_seg
  await-Kept posts zero t k = ground (arith, k)
  await-Kept posts (suc left) t k =
      let u : Node = record t {
        seg = record (t.seg) {
          sem_s_to_m_request = t.seg.sem_s_to_m_request + posts (timeout_segments - suc left);
        };
      } in
      ground (arith, k, await-Kept posts left u k)

  module _ (os : Os) where
    stop-Kept :
        (stops : Bool) (t : Node) → KeptBy n t → Ensures (KeptBy n) (stop_meanwhile os stops t)
    unfolding stop_meanwhile handle_stop_cycle_slave_request sem_wait send_master_ack_response
        send_master_nack_response set_error_seg kill
    stop-Kept true t k = ground (arith, k)
    stop-Kept false t k = k

    signal-Kept :
        (meanwhile : Meanwhile) (t : Node)
        → KeptBy n t
        → Ensures (KeptBy n) (send_master_signal_master_parameter_request os meanwhile t)
    unfolding send_master_signal_master_parameter_request ask_master kill sem_post
    signal-Kept meanwhile t k =
        Ensures-bind (KeptBy n) (KeptBy n) (await_master meanwhile.posts timeout_segments) _ t
          (λ u j. j)
          (λ _ u j.
            Ensures-bind (KeptBy n) (KeptBy n) (stop_meanwhile os meanwhile.stops) _ u (λ v i. i)
              (λ _ v i. ground (arith, i)) (stop-Kept meanwhile.stops u j))
          (await-Kept meanwhile.posts timeout_segments t k)

    post-Kept :
        (t : Node) → KeptBy n t → Ensures (KeptBy n) (sem_post os allow_communication_cycle t)
    unfolding sem_post
    post-Kept t k = ground (arith, k)

    stopped-Kept :
        (b : Bool) (t : Node)
        → KeptBy n t
        → Ensures (KeptBy n) (
            when b
              (do set_error sem_post_failed; update_seg (λ g. record g { cycle_started = false }))
              t)
    unfolding set_error_seg
    stopped-Kept true t k = ground (arith, k)
    stopped-Kept false t k = k

    wait-Kept :
        (t : Node) → KeptBy n t → Ensures (KeptBy n) (sem_wait os allow_communication_cycle t)
    unfolding sem_wait
    wait-Kept t k = ground (arith, k)

    late-Kept :
        (sleep : ℤ) (t : Node)
        → KeptBy n t
        → Ensures (KeptBy n) ((set_error usleep_failed >> pure (next_round sleep)) t)
    unfolding set_error_seg
    late-Kept sleep t k = ground (arith, k)

    parts : Parts os (KeptBy n)
    parts = record {
      waits = wait-Kept;
      is_late = late-Kept;
      fills = fill-Kept;
      calculates = calculate-Kept;
      posts = post-Kept;
      stops = stopped-Kept;
      sends = signal-Kept;
    }

    -- One round of the cycle keeps the segment's owner, connection and, once connected, its name.
    pub round-Kept :
        (meanwhile : Meanwhile) (rand_value : ℕ) (now : Timeval) (sleep_us : ℤ)
        → Ensures (KeptBy n) (cycle_round os meanwhile rand_value now sleep_us n)
    round-Kept meanwhile rand_value now sleep_us =
        cycle_round-Ensures os (KeptBy n) parts meanwhile rand_value now sleep_us n
          (Kept-refl n.seg)
