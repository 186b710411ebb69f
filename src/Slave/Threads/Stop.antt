-- ===== src/Slave/Threads/Stop.antt =====
-- A request to stop that sleeps is acknowledged after at most three parts of the cycle thread.
use real_time_cyclic.Prelude.{ℕ, zero, suc, ◌≡◌, ◌≢◌, refl, false, arith, none}
use real_time_cyclic.Common.{ack}
use real_time_cyclic.Os.{Os, Returns, returned}
use real_time_cyclic.Slave.Node.{Node, sem_wait, sem_post, send_master_ack_response, kill}
use real_time_cyclic.Slave.Cycle.{
  Timeval, fill_parameters, calculate_parameter_communication_interval,
}
use real_time_cyclic.Slave.Signals.{choose_handler}
use real_time_cyclic.Slave.Threads.{
  Threads, CyclePc, entered, filling, posting, listening, stopping, attach, resume_stop, Works,
  Step, run, handle, wake, Fresh, Reach, start, later, cycle_part, through_pointer,
}
use real_time_cyclic.Slave.Threads.Parts.{in_section}
use real_time_cyclic.Slave.Threads.Safety.{Sound, reachable-Sound, Step-Sound}

-- A state that the threads can go on to, in which `P` holds.
abbrev pub Leads : Threads → (Threads → Type 0) → Type 0
Leads s P = (t : Threads) × Reach s t × P t

pub earlier : {s t u : Threads} → Step s t → Reach t u → Reach s u
earlier step start = later start step
earlier step (later r last) = later (earlier step r) last

pub Leads-step : {s t : Threads} (P : Threads → Type 0) → Step s t → Leads t P → Leads s P
Leads-step P step (u, r, p) = (u, earlier step r, p)

module _ (os : Os) (w : Works os) (s : Threads) where
  pub run-Leads :
      (P : CyclePc → Node → Type 0) (Q : Threads → Type 0) (rand_value : ℕ) (now : Timeval)
      → Returns P (cycle_part os rand_value now s.cycle s.node)
      → ((pc : CyclePc) (n : Node)
          → P pc n
          → Step s (record { node = n; cycle = pc; handler = s.handler })
          → Leads (record { node = n; cycle = pc; handler = s.handler }) Q)
      → Leads s Q
  run-Leads P Q rand_value now h rest =
      let (pc, n, e, p) = returned P (cycle_part os rand_value now s.cycle s.node) h in
      let step = run os rand_value now pc n w e in Leads-step Q step (rest pc n p step)

  pub handle-Leads :
      (P : Node → Type 0) (Q : Threads → Type 0) (i : ℕ)
      → s.handler ≡ listening
      → Returns (λ _ n. P n) (choose_handler os (attach i s.node))
      → ((n : Node) → P n → Leads (record { node = n; cycle = s.cycle; handler = listening }) Q)
      → Leads s Q
  handle-Leads P Q i l h rest =
      let (done_, n, e, p) = returned (λ _ n. P n) (choose_handler os (attach i s.node)) h in
      Leads-step Q (handle os i n w l e) (rest n p)

  pub wake-Leads :
      (P : Node → Type 0) (Q : Threads → Type 0)
      → s.handler ≡ stopping
      → Returns (λ _ n. P n) (resume_stop os s.node)
      → ((n : Node) → P n → Leads (record { node = n; cycle = s.cycle; handler = listening }) Q)
      → Leads s Q
  wake-Leads P Q l h rest =
      let (done_, n, e, p) = returned (λ _ n. P n) (resume_stop os s.node) h in
      Leads-step Q (wake os n w l e) (rest n p)

-- The parts that are left of the section.
abbrev parts_left : CyclePc → ℕ
parts_left (entered _) = 3
parts_left filling = 2
parts_left posting = 1
parts_left _ = 0

-- The request to stop is acknowledged.
abbrev pub Acknowledged : Threads → Type 0
Acknowledged t =
    (t.handler ≡ listening)
    × (t.node.seg.res_s_to_m ≡ ack)
    × (t.node.seg.cycle_started ≡ false)
    × (in_section t.cycle ≡ 0)

module _ (os : Os) (w : Works os) where
  resume_stop-acks :
      (n : Node)
      → n.self.allow_cycle ≢ 0
      → Returns
          (λ _ t. (t.seg.res_s_to_m ≡ ack) × (t.seg.cycle_started ≡ n.seg.cycle_started))
          (resume_stop os n)
  unfolding resume_stop sem_wait send_master_ack_response kill
  resume_stop-acks n h = ground (arith, w.waits, h)

  part-left :
      (rand_value : ℕ) (now : Timeval) (k : ℕ) (pc : CyclePc) (n : Node)
      → n.self.shmseg ≢ none
      → parts_left pc ≡ suc k
      → Returns (λ pc' t. parts_left pc' ≡ k) (cycle_part os rand_value now pc n)
  unfolding cycle_part sem_wait sem_post through_pointer fill_parameters
      calculate_parameter_communication_interval
  part-left rand_value now k (entered sleep_us) n p e = ground (arith, w.sleeps, p, e)
  part-left rand_value now k filling n p e = ground (arith, p, e)
  part-left rand_value now k posting n p e = ground (arith, w.posts, e)
  part-left rand_value now k _ n p e = absurd (omega (arith, e))

  module _ (rand_value : ℕ) (now : Timeval) where
    stop-Leads :
        (k : ℕ) (s : Threads)
        → Sound s
        → s.handler ≡ stopping
        → parts_left s.cycle ≡ k
        → Leads s Acknowledged
    stop-Leads zero s ok l e =
        wake-Leads os w s _ Acknowledged l
          (resume_stop-acks s.node (λ none. ground (arith, ok, l, e, none)))
          (λ n h. (_, start, (refl, h.0, ground (arith, h, ok, l), ground (arith, e))))
    stop-Leads (suc k) s ok l e =
        run-Leads os w s (λ pc t. parts_left pc ≡ k) Acknowledged rand_value now
          (part-left rand_value now k s.cycle s.node (λ none. ground (arith, ok, l, none)) e)
          (λ pc n h step. stop-Leads k _ (Step-Sound ok step) l h)

    -- From every state that the two threads of a slave that was just started reach, if no call on
    -- its own semaphore and no sleep fails, and in which the handler of a request to stop sleeps:
    -- the threads can go on to a state in which the handler has ended with the answer ACK, the cycle
    -- is stopped and its thread outside of its section.
    pub stop-Acknowledged :
        (first s : Threads)
        → Fresh first
        → Reach first s
        → s.handler ≡ stopping
        → Leads s Acknowledged
    stop-Acknowledged first s f r l =
        stop-Leads (parts_left s.cycle) s (reachable-Sound first s f r) l refl
