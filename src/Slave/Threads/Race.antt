-- ===== src/Slave/Threads/Race.antt =====
-- The master disconnects a slave whose cycle thread still waits for an answer, or is in its section.
use real_time_cyclic.Prelude.{
  ℕ, ◌<◌, ◌≡◌, ◌≢◌, inl, inr, refl, true, false, arith, none, ℤ, ◌==◌, Bool-cases, Option-cases,
  ◌⊎◌, some, subst, sym, ◌∙◌,
}
use real_time_cyclic.Common.{Shmseg, Request, disconnect_slave, stop_slave_cycle}
use real_time_cyclic.Os.{Os, Returns, fault, reliable}
use real_time_cyclic.Slave.Node.{Node, sem_wait, sem_post, send_master_ack_response, kill}
use real_time_cyclic.Slave.Cycle.{Timeval}
use real_time_cyclic.Slave.Requests.{
  dispatch_master_request, handle_master_request, handle_master_response,
  handle_disconnect_slave_request, handle_stop_cycle_slave_request,
}
use real_time_cyclic.Slave.Signals.{choose_handler}
use real_time_cyclic.Slave.Threads.{
  Threads, CyclePc, polling, entered, listening, attach, Works, others, Fresh, Reach, start,
  cycle_part, through_pointer,
}
use real_time_cyclic.Slave.Threads.Safety.{reachable-Sound}
use real_time_cyclic.Slave.Threads.Stop.{Leads, Leads-step, handle-Leads}

reliable-Works : Works reliable
reliable-Works = record { waits = refl; posts = refl; sleeps = refl }

-- The segment with a request of the master outstanding.
abbrev asked : Request → Shmseg → Shmseg
asked req g = record g { req_m_to_s = req; sem_m_to_s_request = 0 }

abbrev ask : Request → Threads → Threads
ask req s = record s { node = record (s.node) { seg = asked req s.node.seg } }

-- The next part of the cycle thread goes through NULL, whatever it calls.
abbrev pub Crashes : Threads → Type 0
Crashes t =
    (os : Os) (rand_value : ℕ) (now : Timeval) → cycle_part os rand_value now t.cycle t.node ≡ fault

-- The answer to the slave's last signal.
answer-Returns :
    (i : ℕ) (n : Node)
    → n.seg.sem_s_to_m_request ≡ 0
    → n.self.shmseg ≢ none
    → Returns
        (λ _ t.
          (t.self ≡ n.self)
          × (t.seg.cycle_started ≡ n.seg.cycle_started)
          × (t.seg.sem_s_to_m_request ≡ 1))
        (choose_handler reliable (attach i n))
unfolding choose_handler handle_master_response sem_post attach
answer-Returns i n e p = ground (arith, e, p)

stop-Returns :
    (i : ℕ) (g : Shmseg) (n : Node)
    → n.seg ≡ asked stop_slave_cycle g
    → 0 < g.sem_s_to_m_request
    → n.self.shmseg ≢ none
    → g.cycle_started ≡ true
    → 0 < n.self.allow_cycle
    → Returns
        (λ _ t.
          (t.seg.cycle_started ≡ false)
          × (t.seg.sem_s_to_m_request ≡ g.sem_s_to_m_request)
          × (t.self.shmseg ≢ none))
        (choose_handler reliable (attach i n))
unfolding choose_handler handle_master_request dispatch_master_request
    handle_stop_cycle_slave_request sem_wait send_master_ack_response kill attach
stop-Returns i g n e sem p on allow = ground (arith, e, sem, p, on, allow)

disconnect-Returns :
    (i : ℕ) (g : Shmseg) (n : Node)
    → n.seg ≡ asked disconnect_slave g
    → 0 < g.sem_s_to_m_request
    → n.self.shmseg ≢ none
    → Returns (λ _ t. t.self.shmseg ≡ none) (choose_handler reliable (attach i n))
unfolding choose_handler handle_master_request dispatch_master_request
    handle_disconnect_slave_request send_master_ack_response kill attach
disconnect-Returns i g n e sem p = ground (arith, e, sem, p)

null-Crashes :
    (t : Threads) (left : ℕ) (segment : ℤ)
    → t.cycle ≡ polling left segment
    → t.node.self.shmseg ≡ none
    → Crashes t
unfolding cycle_part through_pointer
null-Crashes t left segment e null os rand_value now = rw e (ground (arith, null))

null_inside-Crashes :
    (t : Threads) (sleep_us : ℤ)
    → t.cycle ≡ entered sleep_us
    → t.node.self.shmseg ≡ none
    → Crashes t
unfolding cycle_part through_pointer
null_inside-Crashes t sleep_us e null os rand_value now = rw e (ground (arith, null))

-- The thread stands where it uses the segment next.
abbrev Uses : CyclePc → Type 0
Uses pc = (t : Threads) → t.cycle ≡ pc → t.node.self.shmseg ≡ none → Crashes t

module _ (i : ℕ) (pc : CyclePc) (uses : Uses pc) where
  -- The thread stands there, the handler listens, and its pointer is set.
  record Waits (s : Threads) : Type 0 where
    stands : s.cycle ≡ pc
    listens : s.handler ≡ listening
    attached : s.node.self.shmseg ≢ none

  disconnect-Leads : (s : Threads) → Waits s → 0 < s.node.seg.sem_s_to_m_request → Leads s Crashes
  disconnect-Leads s h sem =
      Leads-step Crashes (others (asked disconnect_slave s.node.seg) refl (inl refl)) (
        handle-Leads reliable reliable-Works (ask disconnect_slave s) (λ t. t.self.shmseg ≡ none)
          Crashes i h.listens
          (disconnect-Returns i s.node.seg (ask disconnect_slave s).node refl sem h.attached)
          (λ n null. (
            _,
            start,
            uses (record { node = n; cycle = s.cycle; handler = listening }) h.stands null,
          )))

  stop-Leads :
      (s : Threads)
      → Waits s
      → 0 < s.node.seg.sem_s_to_m_request
      → s.node.seg.cycle_started ≡ true
      → 0 < s.node.self.allow_cycle
      → Leads s Crashes
  stop-Leads s h sem on allow =
      Leads-step Crashes (others (asked stop_slave_cycle s.node.seg) refl (inl refl)) (
        handle-Leads reliable reliable-Works (ask stop_slave_cycle s)
          (λ t.
            (t.seg.cycle_started ≡ false)
            × (t.seg.sem_s_to_m_request ≡ s.node.seg.sem_s_to_m_request)
            × (t.self.shmseg ≢ none))
          Crashes i h.listens
          (stop-Returns i s.node.seg (ask stop_slave_cycle s).node refl sem h.attached on allow)
          (λ n k.
            disconnect-Leads _ (record { stands = h.stands; listens = refl; attached = k.2 })
              (ground (arith, k, sem))))

  -- An answer of the master that is outstanding is handled first.
  answered-Leads :
      (s : Threads)
      → Waits s
      → s.node.seg.sem_s_to_m_request ≡ 0
      → ((n : Node)
          → n.self ≡ s.node.self
          → n.seg.cycle_started ≡ s.node.seg.cycle_started
          → 0 < n.seg.sem_s_to_m_request
          → Waits (record { node = n; cycle = s.cycle; handler = listening })
          → Leads (record { node = n; cycle = s.cycle; handler = listening }) Crashes)
      → Leads s Crashes
  answered-Leads s h taken rest =
      handle-Leads reliable reliable-Works s
        (λ t.
          (t.self ≡ s.node.self)
          × (t.seg.cycle_started ≡ s.node.seg.cycle_started)
          × (t.seg.sem_s_to_m_request ≡ 1))
        Crashes i h.listens (answer-Returns i s.node taken h.attached)
        (λ n k. rest n k.0 k.1 (ground (arith, k)) (record {
          stands = h.stands;
          listens = refl;
          attached = subst (λ u. u.shmseg ≢ none) (sym k.0) h.attached;
        }))

  stopped-Leads :
      (s : Threads)
      → Waits s
      → s.node.seg.cycle_started ≡ true
      → 0 < s.node.self.allow_cycle
      → Leads s Crashes
  stopped-Leads s h on allow = elim (Bool-cases (s.node.seg.sem_s_to_m_request == 0)) [
    | inr free ↦ stop-Leads s h (ground (arith, free)) on allow
    | inl taken ↦ answered-Leads s h (ground (arith, taken)) (λ n same run_on sem k.
        stop-Leads _ k sem (run_on ∙ on) (subst (λ u. 0 < u.allow_cycle) (sym same) allow))
  ]

  disconnected-Leads : (s : Threads) → Waits s → Leads s Crashes
  disconnected-Leads s h = elim (Bool-cases (s.node.seg.sem_s_to_m_request == 0)) [
    | inr free ↦ disconnect-Leads s h (ground (arith, free))
    | inl taken ↦
        answered-Leads s h (ground (arith, taken)) (λ n same run_on sem k. disconnect-Leads _ k sem)
  ]

-- From every state that a slave that was just started reaches in which the handler listens to signals
-- and the cycle is started, while its thread polls for the answer to an earlier signal, the two threads
-- can go on, with no call that fails, to a state in which the next part of the cycle thread goes
-- through NULL.
pub polling-Crashes :
    (i left : ℕ) (segment : ℤ) (first s : Threads)
    → Fresh first
    → Reach first s
    → s.cycle ≡ polling left segment
    → s.handler ≡ listening
    → s.node.seg.cycle_started ≡ true
    → Leads s Crashes
polling-Crashes i left segment first s f r e l on = by_pointer (Option-cases s.node.self.shmseg)
  where
    allow : 0 < s.node.self.allow_cycle
    allow = ground (arith, reachable-Sound first s f r, l, e, on)

    by_pointer :
        ((s.node.self.shmseg ≡ none) ⊎ ((j : ℕ) × (s.node.self.shmseg ≡ some j))) → Leads s Crashes
    by_pointer (inl null) = (s, start, null-Crashes s left segment e null)
    by_pointer (inr (j, at_j)) =
        stopped-Leads i (polling left segment) (λ t k. null-Crashes t left segment k) s
          (record { stands = e; listens = l; attached = λ null. ground (arith, null, at_j) }) on
          allow

-- From every state that a slave that was just started reaches in which the cycle thread has taken
-- `allow_communication_cycle` and is to sleep, and the handler listens to signals, one request to
-- disconnect leads, with no call that fails, to a state in which the thread goes through NULL while it
-- holds the semaphore: the handler of that request does not look at `cycle_started` or the semaphore.
pub section-Crashes :
    (i : ℕ) (sleep_us : ℤ) (first s : Threads)
    → Fresh first
    → Reach first s
    → s.cycle ≡ entered sleep_us
    → s.handler ≡ listening
    → Leads s Crashes
section-Crashes i sleep_us first s f r e l = by_pointer (Option-cases s.node.self.shmseg)
  where
    by_pointer :
        ((s.node.self.shmseg ≡ none) ⊎ ((j : ℕ) × (s.node.self.shmseg ≡ some j))) → Leads s Crashes
    by_pointer (inl null) = (s, start, null_inside-Crashes s sleep_us e null)
    by_pointer (inr (j, at_j)) =
        disconnected-Leads i (entered sleep_us) (λ t k. null_inside-Crashes t sleep_us k) s
          (record { stands = e; listens = l; attached = λ null. ground (arith, null, at_j) })
