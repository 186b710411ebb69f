-- ===== src/Slave/Threads/Alone/Send.antt =====
-- The parts from the wait for the master to the end of the round.
use real_time_cyclic.Prelude.{ℕ, suc, ◌≡◌, ◌≢◌, ap, ◌∙◌, sym, arith, none, ℤ}
use real_time_cyclic.Os.{Os, M, Outcome, done, blocked, fault, bind-done, ◌>>=◌, returned}
use real_time_cyclic.Slave.Node.{Node}
use real_time_cyclic.Slave.Cycle.{
  nothing, ask_master, stop_meanwhile, Timeval, timeout_segments, div_segments, Next, await_master,
  send_master_signal_master_parameter_request,
}
use real_time_cyclic.Slave.Cycle.Signal.{Waited, await_master-Waited}
use real_time_cyclic.Slave.Threads.{CyclePc, measuring, polling, cycle_part, through_pointer}
use real_time_cyclic.Slave.Threads.Alone.{
  next_sleep, round_end, run_alone, send_rest, after_wait, wait_and_end, polling-alone,
}

module _ (os : Os) (rand_value : ℕ) (now : Timeval) where
  -- The end of `communicate`.
  abbrev pub send_and_end : M Node Next
  send_and_end = send_master_signal_master_parameter_request os nothing >>= next_sleep

  measure-alone :
      (fuel : ℕ) (n : Node)
      → n.self.shmseg ≢ none
      → (run_alone os rand_value now) (suc fuel) measuring n
        ≡ (run_alone os rand_value now) fuel
            (polling timeout_segments (div_segments n.seg.communication_cycle_us))
            n
  unfolding run_alone cycle_part through_pointer
  measure-alone fuel n p = ground (arith, p)

  -- From what the send returned to the next round.
  abbrev pub next_of : Outcome Node ℤ → Outcome Node Next
  next_of o = elim o [ done a v ↦ next_sleep a v | blocked v ↦ blocked v | fault ↦ fault ]

  abbrev finish_round : Outcome Node ℤ → Outcome Node CyclePc
  finish_round o = elim (next_of o) [
    | done a v ↦ round_end a v
    | blocked v ↦ blocked v
    | fault ↦ fault
  ]

  send-rest :
      (n t : Node)
      → await_master (λ k. 0) timeout_segments n ≡ done tt t
      → send_master_signal_master_parameter_request os nothing n
        ≡ (send_rest os rand_value now) (div_segments n.seg.communication_cycle_us) t
  unfolding send_master_signal_master_parameter_request ask_master stop_meanwhile
  send-rest n t e =
      bind-done (await_master (λ k. 0) timeout_segments)
        (λ _. (send_rest os rand_value now) (div_segments n.seg.communication_cycle_us)) n t tt e

  send-alone :
      (n : Node)
      → (wait_and_end os rand_value now) timeout_segments
          (div_segments n.seg.communication_cycle_us)
          n
        ≡ (send_and_end >>= round_end) n
  send-alone n =
      let (u, t, e, kept) =
        returned (λ _ t. Waited n t) (await_master (λ k. 0) timeout_segments n)
          (await_master-Waited (λ k. 0) timeout_segments n) in
      bind-done (await_master (λ k. 0) timeout_segments)
        (λ _. (after_wait os rand_value now) (div_segments n.seg.communication_cycle_us)) n t tt e
      ∙ sym (ap finish_round (send-rest n t e))

  pub measuring-alone :
      (n : Node)
      → n.self.shmseg ≢ none
      → (run_alone os rand_value now) 25 measuring n ≡ (send_and_end >>= round_end) n
  measuring-alone n p =
      measure-alone 24 n p
      ∙ (polling-alone os rand_value now) timeout_segments
          (div_segments n.seg.communication_cycle_us) n p
      ∙ send-alone n
