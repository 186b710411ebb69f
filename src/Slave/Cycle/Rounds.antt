-- ===== src/Slave/Cycle/Rounds.antt =====
-- A property of the slave's node through one round of its cycle, from the parts of the round.
use real_time_cyclic.Prelude.{ℕ, Bool, false, arith, ℤ}
use real_time_cyclic.Common.{sem_post_failed, usleep_failed}
use real_time_cyclic.Os.{Os, allow_communication_cycle, Ensures, Ensures-bind, when, ◌>>◌, pure}
use real_time_cyclic.Slave.Node.{Node, set_error, update_seg, sem_post, sem_wait}
use real_time_cyclic.Slave.Cycle.{
  Meanwhile, Timeval, next_round, cycle_round, communicate, fill_parameters,
  calculate_parameter_communication_interval, send_master_signal_master_parameter_request,
}

-- What the parts of a round keep.
pub record Parts (os : Os) (Q : Node → Type 0) : Type 0 where
  pub waits : (n : Node) → Q n → Ensures Q (sem_wait os allow_communication_cycle n)
  pub is_late :
      (sleep : ℤ) (n : Node)
      → Q n
      → Ensures Q ((set_error usleep_failed >> pure (next_round sleep)) n)
  pub fills : (rand_value : ℕ) (n : Node) → Q n → Ensures Q (fill_parameters rand_value n)
  pub calculates :
      (now : Timeval) (n : Node)
      → Q n
      → Ensures Q (calculate_parameter_communication_interval now n)
  pub posts : (n : Node) → Q n → Ensures Q (sem_post os allow_communication_cycle n)
  pub stops :
      (b : Bool) (n : Node)
      → Q n
      → Ensures Q (
          when b
            (do set_error sem_post_failed; update_seg (λ g. record g { cycle_started = false }))
            n)
  pub sends :
      (answers : Meanwhile) (n : Node)
      → Q n
      → Ensures Q (send_master_signal_master_parameter_request os answers n)

module _ (os : Os) (Q : Node → Type 0) (parts : Parts os Q) where
  communicate-Ensures :
      (answers : Meanwhile) (rand_value : ℕ) (now : Timeval) (t : Node)
      → Q t
      → Ensures Q (communicate os answers rand_value now t)
  unfolding communicate
  communicate-Ensures answers rand_value now t k =
      Ensures-bind Q Q (fill_parameters rand_value) _ t (λ u j. j)
        (λ _ u j.
          Ensures-bind Q Q (calculate_parameter_communication_interval now) _ u (λ v i. i)
            (λ _ v i.
              Ensures-bind Q Q (sem_post os allow_communication_cycle) _ v (λ w h. h)
                (λ b w h.
                  Ensures-bind Q Q (when b _) _ w (λ x g. g)
                    (λ _ x g.
                      Ensures-bind Q Q (send_master_signal_master_parameter_request os answers) _ x
                        (λ y f. f) (λ z y f. f) (parts.sends answers x g))
                    (parts.stops b w h))
                (parts.posts v i))
            (parts.calculates now u j))
        (parts.fills rand_value t k)

  pub cycle_round-Ensures :
      (answers : Meanwhile) (rand_value : ℕ) (now : Timeval) (sleep_us : ℤ) (n : Node)
      → Q n
      → Ensures Q (cycle_round os answers rand_value now sleep_us n)
  unfolding cycle_round
  cycle_round-Ensures answers rand_value now sleep_us n q =
      Ensures-bind Q Q (sem_wait os allow_communication_cycle) _ n (λ t k. k)
        (λ failed t k. ground (
          arith,
          k,
          parts.is_late sleep_us t k,
          parts.is_late t.seg.communication_cycle_us t k,
          communicate-Ensures answers rand_value now t k,
        ))
        (parts.waits n q)
