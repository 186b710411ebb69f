-- ===== src/Slave/Threads/Alone/Round.antt =====
-- The parts of a whole round.
use real_time_cyclic.Prelude.{
  ℕ, suc, ◌+◌, ◌-◌, ◌≡◌, ◌≢◌, ap, subst, ◌∙◌, sym, Bool-cases, inl, inr, false, arith, none, ℤ, pos,
  ltb_ℤ, ◌==ℤ◌, ◌&&◌, if◌then◌else◌,
}
use real_time_cyclic.Common.{error_not_set_communication_cycle, usleep_failed, sem_post_failed}
use real_time_cyclic.Os.{
  Os, M, Outcome, done, blocked, fault, bind-done, allow_communication_cycle, ◌>>=◌, ◌>>◌, pure,
  get, when, Returns, returned, given◌run◌otherwise◌,
}
use real_time_cyclic.Slave.Node.{Node, sem_wait, sem_post, update_seg, set_error, set_error_seg}
use real_time_cyclic.Slave.Cycle.{
  nothing, Timeval, cycle_round, fill_parameters, calculate_parameter_communication_interval, Next,
  next_round, communicate,
}
use real_time_cyclic.Slave.Threads.{
  CyclePc, waiting, entered, filling, posting, measuring, cycle_part, through_pointer,
}
use real_time_cyclic.Slave.Threads.Alone.{is_over, round_end, run_alone}
use real_time_cyclic.Slave.Threads.Alone.Send.{send_and_end, measuring-alone}

module _ (os : Os) (rand_value : ℕ) (now : Timeval) where
  -- The end of `communicate` from the call of `sem_post`.
  abbrev post_and_end : M Node Next
  post_and_end = do
    failed ← sem_post os allow_communication_cycle
    when failed (do set_error sem_post_failed; update_seg (λ g. record g { cycle_started = false }))
    (send_and_end os rand_value now)

  -- The round from `m`, and from the point `pc`, goes on alike.
  abbrev Alike : ℕ → CyclePc → M Node Next → ℕ → CyclePc → M Node Next → Node → Type 0
  Alike fuel pc m fuel' pc' m' n =
      (t : Node) × ((run_alone os rand_value now) fuel pc n
        ≡ (run_alone os rand_value now) fuel' pc' t)
      × ((m >>= round_end) n ≡ (m' >>= round_end) t)
      × (t.self.shmseg ≢ none)

  post-step :
      (fuel : ℕ) (n : Node)
      → n.self.shmseg ≢ none
      → Alike (suc fuel) posting post_and_end fuel measuring (send_and_end os rand_value now) n
  unfolding run_alone cycle_part through_pointer sem_post
  post-step fuel n p = elim (Bool-cases (os.sem_post_fails allow_communication_cycle)) [
    | inl e ↦ (
      record n { seg = record (set_error_seg sem_post_failed n.seg) { cycle_started = false } },
      ground (arith, e, p),
      ground (arith, e),
      p,
    )
    | inr e ↦ (
      record n { self = record (n.self) { allow_cycle = n.self.allow_cycle + 1 } },
      ground (arith, e, p),
      ground (arith, e),
      p,
    )
  ]

  posting-alone :
      (n : Node)
      → n.self.shmseg ≢ none
      → (run_alone os rand_value now) 26 posting n ≡ (post_and_end >>= round_end) n
  posting-alone n p =
      let (t, parts, whole, q) = post-step 25 n p in
      parts ∙ (measuring-alone os rand_value now) t q ∙ sym whole

  fills : (n : Node) → Returns (λ _ t. t.self.shmseg ≡ n.self.shmseg) (fill_parameters rand_value n)
  unfolding fill_parameters
  fills n = ground arith

  calculates :
      (n : Node)
      → Returns
          (λ _ t. t.self.shmseg ≡ n.self.shmseg)
          (calculate_parameter_communication_interval now n)
  unfolding calculate_parameter_communication_interval
  calculates n = ground arith

  -- The two calls between `usleep` and `sem_post` return, whatever follows them.
  fills-then :
      (n : Node)
      → (t : Node) × (t.self.shmseg ≡ n.self.shmseg)
        × ((B : Type 0) (k : M Node B)
            → (fill_parameters rand_value >> (calculate_parameter_communication_interval now >> k))
                n
              ≡ k t)
  fills-then n =
      let (u, t, e, keep) =
        returned (λ _ t. t.self.shmseg ≡ n.self.shmseg) (fill_parameters rand_value n) (fills n) in
      let (u', v, e', keep') =
        returned (λ _ v. v.self.shmseg ≡ t.self.shmseg)
          (calculate_parameter_communication_interval now t) (calculates t) in
      (
        v,
        keep' ∙ keep,
        λ B k.
            bind-done (fill_parameters rand_value)
              (λ _. calculate_parameter_communication_interval now >> k) n t u e
            ∙ bind-done (calculate_parameter_communication_interval now) (λ _. k) t v u' e',
      )

  filling-part :
      (n t : Node)
      → n.self.shmseg ≢ none
      → (fill_parameters rand_value
            >> (calculate_parameter_communication_interval now >> pure posting))
          n
        ≡ done posting t
      → cycle_part os rand_value now filling n ≡ done posting t
  unfolding cycle_part through_pointer
  filling-part n t p e = ground (arith, p, e)

  filling-run :
      (fuel : ℕ) (n t : Node)
      → cycle_part os rand_value now filling n ≡ done posting t
      → (run_alone os rand_value now) (suc fuel) filling n
        ≡ (run_alone os rand_value now) fuel posting t
  unfolding run_alone
  filling-run fuel n t e =
      bind-done (cycle_part os rand_value now filling)
        (λ next. given is_over next run pure next otherwise (run_alone os rand_value now) fuel next)
        n t posting e

  abbrev end_of : Outcome Node Next → Outcome Node CyclePc
  end_of o = elim o [ done a v ↦ round_end a v | blocked v ↦ blocked v | fault ↦ fault ]

  communicates :
      (n t : Node)
      → (fill_parameters rand_value
            >> (calculate_parameter_communication_interval now >> post_and_end))
          n
        ≡ post_and_end t
      → communicate os nothing rand_value now n ≡ post_and_end t
  unfolding communicate
  communicates n t e = e

  filling-alone :
      (n : Node)
      → n.self.shmseg ≢ none
      → (run_alone os rand_value now) 27 filling n
        ≡ (communicate os nothing rand_value now >>= round_end) n
  filling-alone n p =
      let (t, keep, follows) = fills-then n in
      filling-run 26 n t (filling-part n t p (follows CyclePc (pure posting)))
      ∙ posting-alone t (subst (λ i. i ≢ none) (sym keep) p)
      ∙ sym (ap end_of (communicates n t (follows Next post_and_end)))

  -- The rest of a round, from its `usleep`.
  abbrev sleep_then : ℤ → M Node Next
  sleep_then sleep =
      given ltb_ℤ (pos 0) sleep && os.usleep_fails
      run (do set_error usleep_failed; pure (next_round sleep))
      otherwise communicate os nothing rand_value now

  abbrev enter : ℤ → M Node Next
  enter sleep_us = do
    n ← get
    let sleep =
        if sleep_us ==ℤ error_not_set_communication_cycle
        then n.seg.communication_cycle_us
        else sleep_us
    sleep_then sleep

  -- The cycle thread with the semaphore.
  abbrev inside : ℕ → Node → Node
  inside v n = record n { self = record (n.self) { allow_cycle = v } }

  entered-run :
      (fuel : ℕ) (sleep_us : ℤ) (n : Node)
      → n.self.shmseg ≢ none
      → run_alone os rand_value now fuel filling n
        ≡ (communicate os nothing rand_value now >>= round_end) n
      → run_alone os rand_value now (suc fuel) (entered sleep_us) n
        ≡ (enter sleep_us >>= round_end) n
  unfolding run_alone cycle_part through_pointer
  entered-run fuel sleep_us n p e = ground (arith, p, e)

  waiting-run :
      (fuel : ℕ) (sleep_us : ℤ) (n : Node)
      → ((v : ℕ)
          → run_alone os rand_value now fuel (entered sleep_us) (inside v n)
            ≡ (enter sleep_us >>= round_end) (inside v n))
      → run_alone os rand_value now (suc fuel) (waiting sleep_us) n
        ≡ (cycle_round os nothing rand_value now sleep_us >>= round_end) n
  unfolding run_alone cycle_part cycle_round sem_wait
  waiting-run fuel sleep_us n e = ground (arith, e (n.self.allow_cycle - 1))

  -- The most parts that a round has: five up to the wait, one for each look at the answer, and three.
  abbrev round_parts : ℕ
  round_parts = 29

  -- When no other thread or process does anything between its parts, and no answer of the master
  -- comes while it waits for one, the cycle thread of an attached slave goes from its `sem_wait` to
  -- the next one, or to its end, by parts as the function `cycle_round` does: with the same state
  -- and the same next value of `sleep_us`, asleep where that sleeps, whatever calls fail.
  cycle_round-Alone :
      (sleep_us : ℤ) (n : Node)
      → n.self.shmseg ≢ none
      → (run_alone os rand_value now) round_parts (waiting sleep_us) n
        ≡ (cycle_round os nothing rand_value now sleep_us >>= round_end) n
  cycle_round-Alone sleep_us n p =
      waiting-run 28 sleep_us n
        (λ v. entered-run 27 sleep_us (inside v n) p (filling-alone (inside v n) p))
