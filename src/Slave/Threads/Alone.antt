-- ===== src/Slave/Threads/Alone.antt =====
-- src/slave.c: the cycle thread when nothing runs between its parts, up to its wait for the master.
pub mod Send
pub mod Round
use real_time_cyclic.Prelude.{
  ℕ, zero, suc, ◌+◌, ◌-◌, ◌<◌, ◌==◌, ltb, ◌≡◌, ◌≢◌, refl, ap, subst, ◌∙◌, sym, Bool, Bool-cases,
  inl, inr, true, false, arith, none, ℤ, pos, ◌-ℤ◌,
}
use real_time_cyclic.Common.{
  master_failed_to_respond, sem_post_failed, sigusr1, signal_master_parameter,
}
use real_time_cyclic.Os.{
  Os, M, Outcome, done, blocked, fault, bind-done, s_to_m_request, allow_communication_cycle, ◌>>=◌,
  ◌>>◌, pure, get, when, Returns, returned, given◌run◌otherwise◌,
}
use real_time_cyclic.Slave.Node.{
  Node, sem_wait, sem_post, kill, update_seg, set_error, set_error_seg,
}
use real_time_cyclic.Slave.Cycle.{
  Timeval, cycle_round, fill_parameters, calculate_parameter_communication_interval,
  timeout_segments, div_segments, Next, thread_ends, next_round, communicate, await_master,
  send_master_signal_master_parameter_request,
}
use real_time_cyclic.Slave.Cycle.Signal.{Waited, await_master-Waited}
use real_time_cyclic.Slave.Threads.{
  CyclePc, waiting, entered, filling, posting, measuring, polling, testing, signalling, finishing,
  ended, cycle_part, through_pointer, poll, after_try,
}

-- The round has ended, or the thread.
abbrev pub is_over : CyclePc → Bool
is_over (waiting _) = true
is_over ended = true
is_over _ = false

-- The next round, after so long a wait.
abbrev pub next_sleep : ℤ → M Node Next
next_sleep waited = do n ← get; pure (next_round (n.seg.communication_cycle_us -ℤ waited))

-- How a round ends, as a point of the thread.
abbrev pub round_end : Next → M Node CyclePc
round_end thread_ends = pure ended
round_end (next_round sleep_us) = pure (waiting sleep_us)

module _ (os : Os) (rand_value : ℕ) (now : Timeval) where
  -- The parts up to the end of the round, of which there are at most as many as the fuel.
  unfoldable pub run_alone : ℕ → CyclePc → M Node CyclePc
  run_alone zero pc = pure pc
  run_alone (suc fuel) pc = do
    next ← cycle_part os rand_value now pc
    let rest = run_alone fuel next
    given is_over next run pure next otherwise rest

  -- What follows the wait for the master, as far as the value that is returned.
  abbrev pub send_rest : ℤ → M Node ℤ
  unfolding sem_post kill
  send_rest segment =
      given os.sem_getvalue_fails allow_communication_cycle run pure (pos 0) otherwise (do
        m ← get
        given m.self.allow_cycle == 0
            run (do failed ← sem_post os s_to_m_request; pure (pos 0))
            otherwise (do
              update_seg (λ g. record g { req_s_to_m = signal_master_parameter })
              failed ← kill os m.master_pid sigusr1
              pure segment))

  abbrev pub after_wait : ℤ → M Node CyclePc
  after_wait segment = (send_rest segment >>= next_sleep) >>= round_end

  testing-alone :
      (k : ℕ) (segment : ℤ) (n : Node)
      → n.self.shmseg ≢ none
      → run_alone (suc (suc (suc k))) (testing segment) n ≡ after_wait segment n
  unfolding run_alone cycle_part through_pointer sem_post kill
  testing-alone k segment n p = ground (arith, p)

  abbrev pub wait_and_end : ℕ → ℤ → M Node CyclePc
  wait_and_end left segment = do await_master (λ k. 0) left; after_wait segment

  -- The semaphore is taken.
  abbrev taken : Node → Node
  taken n = record n { seg = record (n.seg) { sem_s_to_m_request = n.seg.sem_s_to_m_request - 1 } }

  -- The wait has timed out.
  abbrev timed_out : Node → Node
  timed_out n = record n { seg = set_error_seg master_failed_to_respond n.seg }

  got-alone :
      (fuel left : ℕ) (segment : ℤ) (n : Node)
      → n.self.shmseg ≢ none
      → 0 < n.seg.sem_s_to_m_request
      → (run_alone (suc fuel) (polling left segment) n ≡ run_alone fuel (testing segment) (taken n))
        × (await_master (λ k. 0) left n ≡ done tt (taken n))
  unfolding run_alone cycle_part through_pointer poll await_master
  got-alone fuel zero segment n p h = ground (arith, p, h)
  got-alone fuel (suc left) segment n p h = ground (arith, p, h)

  timeout-alone :
      (fuel : ℕ) (segment : ℤ) (n : Node)
      → n.self.shmseg ≢ none
      → n.seg.sem_s_to_m_request ≡ 0
      → (run_alone (suc fuel) (polling zero segment) n
          ≡ run_alone fuel (testing segment) (timed_out n))
        × (await_master (λ k. 0) zero n ≡ done tt (timed_out n))
  unfolding run_alone cycle_part through_pointer poll after_try await_master
  timeout-alone fuel segment n p h = ground (arith, p, h)

  again-alone :
      (fuel left : ℕ) (segment : ℤ) (n : Node)
      → n.self.shmseg ≢ none
      → n.seg.sem_s_to_m_request ≡ 0
      → run_alone (suc fuel) (polling (suc left) segment) n
        ≡ run_alone fuel (polling left segment) n
  unfolding run_alone cycle_part through_pointer poll after_try
  again-alone fuel left segment n p h = ground (arith, p, h)

  await-again :
      (left : ℕ) (n : Node)
      → n.seg.sem_s_to_m_request ≡ 0
      → await_master (λ k. 0) (suc left) n ≡ await_master (λ k. 0) left n
  unfolding await_master
  await-again left n h = ground (arith, h)

  pub polling-alone :
      (left : ℕ) (segment : ℤ) (n : Node)
      → n.self.shmseg ≢ none
      → run_alone (suc (suc (suc (suc left)))) (polling left segment) n
        ≡ wait_and_end left segment n
  polling-alone zero segment n p = elim (Bool-cases (n.seg.sem_s_to_m_request == 0)) [
    | inr free ↦
        let (goes, wait) = got-alone 3 zero segment n p (ground (arith, free)) in
        goes
        ∙ testing-alone 0 segment (taken n) p
        ∙ sym (bind-done (await_master (λ k. 0) zero) (λ _. after_wait segment) n (taken n) tt wait)
    | inl none_ ↦
        let (goes, wait) = timeout-alone 3 segment n p (ground (arith, none_)) in
        goes
        ∙ testing-alone 0 segment (timed_out n) p
        ∙ sym (
            bind-done (await_master (λ k. 0) zero) (λ _. after_wait segment) n (timed_out n) tt
              wait)
  ]
  polling-alone (suc left) segment n p = elim (Bool-cases (n.seg.sem_s_to_m_request == 0)) [
    | inr free ↦
        let (goes, wait) =
          got-alone (suc (suc (suc (suc left)))) (suc left) segment n p (ground (arith, free)) in
        goes
        ∙ testing-alone (suc left) segment (taken n) p
        ∙ sym (
            bind-done (await_master (λ k. 0) (suc left)) (λ _. after_wait segment) n (taken n) tt
              wait)
    | inl none_ ↦
        let e : n.seg.sem_s_to_m_request ≡ 0 = ground (arith, none_) in
        again-alone (suc (suc (suc (suc left)))) left segment n p e
        ∙ polling-alone left segment n p
        ∙ sym (
            ap
              (λ o. elim o [
                | done a t ↦ after_wait segment t
                | blocked t ↦ blocked t
                | fault ↦ fault
              ])
              (await-again left n e))
  ]
