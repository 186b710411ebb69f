-- ===== src/Slave/Threads.antt =====
-- src/slave.c: the communication cycle thread and the signal handler thread of one slave, which run
-- at the same time on the same node.
pub mod Handled
pub mod Parts
pub mod Safety
pub mod Stop
pub mod Race
pub mod Alone
use real_time_cyclic.Prelude.{
  ℕ, zero, suc, ◌+◌, ◌-◌, ◌==◌, ltb, ◌≡◌, ◌⊎◌, ℤ, pos, ◌-ℤ◌, ◌==ℤ◌, ltb_ℤ, Bool, true, false, ◌&&◌,
  Option, none, some, if◌then◌else◌,
}
use real_time_cyclic.Common.{
  Shmseg, disconnect_slave, error_not_set_communication_cycle, usleep_failed, sem_post_failed,
  master_failed_to_respond, signal_master_parameter, sigusr1,
}
use real_time_cyclic.Os.{
  Os, s_to_m_request, allow_communication_cycle, M, done, blocked, fault, ◌>>=◌, ◌>>◌, pure, get,
  given◌run◌otherwise◌,
}
use real_time_cyclic.Slave.Node.{
  Node, update_seg, set_error, kill, sem_wait, sem_post, send_master_ack_response,
}
use real_time_cyclic.Slave.Cycle.{
  Timeval, timeout_segments, div_segments, fill_parameters,
  calculate_parameter_communication_interval,
}
use real_time_cyclic.Slave.Signals.{choose_handler}

-- Where the communication cycle thread stands, with the local variables that are live there.
pub data CyclePc : Type 0 where
  waiting : (sleep_us : ℤ) → CyclePc  -- before `sem_wait`
  entered : (sleep_us : ℤ) → CyclePc  -- before `usleep`
  filling : CyclePc  -- before `rand`
  posting : CyclePc  -- before `sem_post`
  measuring : CyclePc  -- start of `send_master_signal_master_parameter_request`
  polling : (left : ℕ) (time_segment_us : ℤ) → CyclePc  -- head of its loop
  testing : (time_segment_us : ℤ) → CyclePc  -- before `sem_getvalue`
  signalling : (time_segment_us : ℤ) → CyclePc  -- before the assignment of the request
  finishing : (waited_us : ℤ) → CyclePc  -- before the next value of `sleep_us`
  ended : CyclePc

-- An access to the segment goes through `self.shmseg`.
unfoldable pub through_pointer : {A : Type 0} → M Node A → M Node A
through_pointer m n = elim n.self.shmseg [ none ↦ fault | some i ↦ m n ]

-- `sem_trywait` failed.
unfoldable pub after_try : ℕ → ℤ → M Node CyclePc
after_try zero time_segment_us = do
  set_error master_failed_to_respond
  pure (testing time_segment_us)
after_try (suc left) time_segment_us = pure (polling left time_segment_us)

-- One `sem_trywait`, with the sleep that follows when it fails.
unfoldable pub poll : ℕ → ℤ → M Node CyclePc
unfolding after_try
poll left time_segment_us = do
  n ← get
  given ltb 0 n.seg.sem_s_to_m_request
      run (do
        update_seg (λ g. record g { sem_s_to_m_request = g.sem_s_to_m_request - 1 })
        pure (testing time_segment_us))
      otherwise after_try left time_segment_us

-- What the thread does from one point to the next, with the value of `rand` and the time.
unfoldable pub cycle_part : Os → ℕ → Timeval → CyclePc → M Node CyclePc
unfolding sem_wait sem_post kill
cycle_part os rand_value now (waiting sleep_us) = do
  failed ← sem_wait os allow_communication_cycle
  given failed run pure ended otherwise pure (entered sleep_us)
cycle_part os rand_value now (entered sleep_us) = through_pointer (do
  n ← get
  let sleep =
      if sleep_us ==ℤ error_not_set_communication_cycle
      then n.seg.communication_cycle_us
      else sleep_us
  given ltb_ℤ (pos 0) sleep && os.usleep_fails
      run (do set_error usleep_failed; pure (waiting sleep))
      otherwise pure filling)
cycle_part os rand_value now filling =
    through_pointer
      (do fill_parameters rand_value; calculate_parameter_communication_interval now; pure posting)
cycle_part os rand_value now posting = do
  failed ← sem_post os allow_communication_cycle
  given failed
      run through_pointer (do
        set_error sem_post_failed
        update_seg (λ g. record g { cycle_started = false })
        pure measuring)
      otherwise pure measuring
cycle_part os rand_value now measuring =
    through_pointer
      (do n ← get; pure (polling timeout_segments (div_segments n.seg.communication_cycle_us)))
cycle_part os rand_value now (polling left time_segment_us) =
    through_pointer (poll left time_segment_us)
cycle_part os rand_value now (testing time_segment_us) =
    given os.sem_getvalue_fails allow_communication_cycle run pure (finishing (pos 0)) otherwise (do
      n ← get
      given n.self.allow_cycle == 0
          run through_pointer (do failed ← sem_post os s_to_m_request; pure (finishing (pos 0)))
          otherwise pure (signalling time_segment_us))
cycle_part os rand_value now (signalling time_segment_us) = through_pointer (do
  update_seg (λ g. record g { req_s_to_m = signal_master_parameter })
  n ← get
  failed ← kill os n.master_pid sigusr1
  pure (finishing time_segment_us))
cycle_part os rand_value now (finishing waited_us) =
    through_pointer (do n ← get; pure (waiting (n.seg.communication_cycle_us -ℤ waited_us)))
cycle_part os rand_value now ended = pure ended

-- Where the signal handler thread stands: in `sigwaitinfo`, or in the `sem_wait` of
-- `handle_stop_cycle_slave_request`.
pub data HandlerPc : Type 0 where
  listening stopping : HandlerPc

-- The rest of `handle_stop_cycle_slave_request`.
unfoldable pub resume_stop : Os → M Node (Unit {0})
unfolding sem_wait
resume_stop os = do failed ← sem_wait os allow_communication_cycle; send_master_ack_response os

-- The pointer is set, as `first_signal_ever_setup` sets it, to the segment with this index.
unfoldable pub attach : ℕ → Node → Node
attach i n = elim n.self.shmseg [
  | none ↦ record n { self = record (n.self) { shmseg = some i } }
  | some j ↦ n
]

pub record Threads : Type 0 where
  pub node : Node
  pub cycle : CyclePc
  pub handler : HandlerPc

-- The calls on the slave's own semaphore, and its sleeps, succeed.
pub record Works (os : Os) : Type 0 where
  pub waits : os.sem_wait_fails allow_communication_cycle ≡ false
  pub posts : os.sem_post_fails allow_communication_cycle ≡ false
  pub sleeps : os.usleep_fails ≡ false

pub data Step (s : Threads) : Threads → Type 0 where
  -- The cycle thread runs on.
  run :
      (os : Os) (rand_value : ℕ) (now : Timeval) (pc : CyclePc) (n : Node)
      → Works os
      → cycle_part os rand_value now s.cycle s.node ≡ done pc n
      → Step s (record { node = n; cycle = pc; handler = s.handler })
  -- A signal of the master is handled to its end.
  handle :
      (os : Os) (i : ℕ) (n : Node)
      → Works os
      → s.handler ≡ listening
      → choose_handler os (attach i s.node) ≡ done tt n
      → Step s (record { node = n; cycle = s.cycle; handler = listening })
  -- The handler of a signal goes to sleep.
  sleep :
      (os : Os) (i : ℕ) (n : Node)
      → Works os
      → s.handler ≡ listening
      → choose_handler os (attach i s.node) ≡ blocked n
      → Step s (record { node = n; cycle = s.cycle; handler = stopping })
  -- The handler that sleeps is woken, and ends.
  wake :
      (os : Os) (n : Node)
      → Works os
      → s.handler ≡ stopping
      → resume_stop os s.node ≡ done tt n
      → Step s (record { node = n; cycle = s.cycle; handler = listening })
  -- The other processes write the segment: any request of the master at any time, to disconnect a
  -- slave whose cycle is started, too. They leave the flag of the cycle; the reset of the segment of a
  -- slave whose cycle is started when it is disconnected is not among the steps. The slave's request
  -- semaphore they can only set back to 1.
  others :
      (g : Shmseg)
      → g.cycle_started ≡ s.node.seg.cycle_started
      → (g.sem_s_to_m_request ≡ s.node.seg.sem_s_to_m_request) ⊎ (g.sem_s_to_m_request ≡ 1)
      → Step s (record s { node = record (s.node) { seg = g } })

-- A slave that has just been started.
pub record Fresh (s : Threads) : Type 0 where
  pub closed : s.node.self.allow_cycle ≡ 0
  pub unattached : s.node.self.shmseg ≡ none
  pub stopped : s.node.seg.cycle_started ≡ false
  pub waits : s.cycle ≡ waiting error_not_set_communication_cycle
  pub listens : s.handler ≡ listening

pub data Reach (first : Threads) : Threads → Type 0 where
  start : Reach first first
  later : {s t : Threads} → Reach first s → Step s t → Reach first t
