-- ===== src/Slave/Threads/Safety.antt =====
-- What holds in every state that the two threads of a slave reach.
use real_time_cyclic.Prelude.{ℕ, ◌+◌, ◌≡◌, ◌≢◌, subst, Bool, true, false, arith, none}
use real_time_cyclic.Os.{Os, Leaves}
use real_time_cyclic.Slave.Node.{Node, sem_wait, send_master_ack_response, kill}
use real_time_cyclic.Slave.Threads.{
  Threads, CyclePc, HandlerPc, listening, stopping, attach, resume_stop, Works, Step, run, handle,
  sleep, wake, others, Fresh, Reach, start, later,
}
use real_time_cyclic.Slave.Threads.Handled.{Leaving, Ended, Asleep, choose_handler-Ended}
use real_time_cyclic.Slave.Threads.Parts.{in_section, Conserves, Ends, cycle_part-Conserves}

abbrev pub one_if : Bool → ℕ
one_if true = 1
one_if false = 0

abbrev pub asks_token : HandlerPc → ℕ
asks_token stopping = 1
asks_token listening = 0

-- The semaphore holds a token for a cycle that is started, or for the handler that waits for it,
-- unless the cycle thread holds it; and a handler that sleeps has its segment.
pub record Sound (s : Threads) : Type 0 where
  pub tokens :
      (s.node.self.allow_cycle + in_section s.cycle)
      ≡ (one_if s.node.seg.cycle_started + asks_token s.handler)
  pub stops : s.handler ≡ stopping → s.node.seg.cycle_started ≡ false
  pub idles : s.node.self.shmseg ≡ none → s.handler ≡ listening

Fresh-Sound : (s : Threads) → Fresh s → Sound s
Fresh-Sound s f = ground (arith, f.closed, f.unattached, f.stopped, f.waits, f.listens)

run-Sound :
    (s : Threads) (pc : CyclePc) (n : Node)
    → Sound s
    → Conserves s.cycle s.node pc n
    → Sound (record { node = n; cycle = pc; handler = s.handler })
run-Sound s pc n ok c = ground (arith, ok, c)

attach-Same :
    (i : ℕ) (n : Node)
    → ((attach i n).seg ≡ n.seg)
      × ((attach i n).self.allow_cycle ≡ n.self.allow_cycle)
      × ((attach i n).self.shmseg ≢ none)
unfolding attach
attach-Same i n = ground arith

handle-Sound :
    (s : Threads) (i : ℕ) (t : Node)
    → Sound s
    → s.handler ≡ listening
    → Ended (attach i s.node) t
    → Sound (record { node = t; cycle = s.cycle; handler = listening })
handle-Sound s i t ok l e = ground (arith, ok, l, e, attach-Same i s.node)

sleep-Sound :
    (s : Threads) (i : ℕ) (t : Node)
    → Sound s
    → s.handler ≡ listening
    → Asleep (attach i s.node) t
    → Sound (record { node = t; cycle = s.cycle; handler = stopping })
sleep-Sound s i t ok l e = ground (arith, ok, l, e, attach-Same i s.node)

-- The handler that slept has the token.
abbrev pub Woken : Node → Node → Type 0
Woken n t =
    ((t.self.allow_cycle + 1) ≡ n.self.allow_cycle)
    × Leaving n t.self.allow_cycle n.seg.cycle_started n.self.shmseg t

resume_stop-Woken : (os : Os) (n : Node) → Works os → Ends (λ _ t. Woken n t) (resume_stop os n)
unfolding resume_stop sem_wait send_master_ack_response kill
resume_stop-Woken os n w = ground (arith, w.waits)

wake-Sound :
    (s : Threads) (t : Node)
    → Sound s
    → s.handler ≡ stopping
    → Woken s.node t
    → Sound (record { node = t; cycle = s.cycle; handler = listening })
wake-Sound s t ok l e = ground (arith, ok, l, e)

pub Step-Sound : {s t : Threads} → Sound s → Step s t → Sound t
Step-Sound {s = s} ok (run os rand_value now pc n w e) = run-Sound s pc n ok (
    subst (Ends (Conserves s.cycle s.node)) e
      (cycle_part-Conserves os rand_value now w s.node s.cycle))
Step-Sound {s = s} ok (handle os i n w l e) = handle-Sound s i n ok l (
    subst (Leaves (Ended (attach i s.node)) (Asleep (attach i s.node))) e
      (choose_handler-Ended os (attach i s.node) w))
Step-Sound {s = s} ok (sleep os i n w l e) = sleep-Sound s i n ok l (
    subst (Leaves (Ended (attach i s.node)) (Asleep (attach i s.node))) e
      (choose_handler-Ended os (attach i s.node) w))
Step-Sound {s = s} ok (wake os n w l e) =
    wake-Sound s n ok l (subst (Ends (λ _ t. Woken s.node t)) e (resume_stop-Woken os s.node w))
Step-Sound {s = s} ok (others g same sem) = ground (arith, ok, same)

pub reachable-Sound : (first s : Threads) → Fresh first → Reach first s → Sound s
reachable-Sound first _ f start = Fresh-Sound first f
reachable-Sound first _ f (later r step) = Step-Sound (reachable-Sound first _ f r) step

-- The parameters that the slave fills in.
abbrev pub SameParameters : Node → Node → Type 0
SameParameters n t =
    (t.seg.string_value ≡ n.seg.string_value)
    × (t.seg.int_value ≡ n.seg.int_value)
    × (t.seg.bool_value ≡ n.seg.bool_value)
