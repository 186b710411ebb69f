-- ===== src/System/Reachable.antt =====
-- What holds in every state that the whole program reaches.
use real_time_cyclic.Prelude.{List, ◌<◌, ℕ, ◌∙◌, Bool-cases, Bool, inl, inr, arith, ℤ, pos}
use real_time_cyclic.Common.{Shmseg, ControlShm, Signal, sigusr1, max_slaves}
use real_time_cyclic.Table.{Slot, at, no_idx, out_of_bounds}
use real_time_cyclic.Master.Processor.Invariant.{IsSound, process_signal-IsSound}
use real_time_cyclic.Master.Processor.Admit.{admit-IsSound}
use real_time_cyclic.Master.Commands.Safety.{handle_command-Ensures}
use real_time_cyclic.Os.{sig_semaphore, final-Ensures, Os, Ensures}
use real_time_cyclic.Master.State.{Master, segment, link_at}
use real_time_cyclic.Master.State.Tables.{set-TableOk}
use real_time_cyclic.Master.Init.{init, async_signal_handler, count_signal}
use real_time_cyclic.Master.Init.Start.{init-TableOk}
use real_time_cyclic.Master.Reply.Connection.{Owned}
use real_time_cyclic.Master.Processor.{admit, process_signal}
use real_time_cyclic.Master.Processor.Admit.{lookup_pid}
use real_time_cyclic.Master.Commands.{handle_command}
use real_time_cyclic.Slave.Cycle.{cycle_round}
use real_time_cyclic.Slave.Signals.{choose_handler}
use real_time_cyclic.Slave.Kept.{Kept-refl, Settled, Kept, KeptBy, choose_handler-Kept}
use real_time_cyclic.Slave.Kept.Rounds.{round-Kept}
use real_time_cyclic.System.Local.{Local, OnNode, All, Calm, put-All}
use real_time_cyclic.System.Settled.{Settled-Local}
use real_time_cyclic.System.Serving.{process_signal-Calm}
use real_time_cyclic.System.Admission.{admit-Calm}
use real_time_cyclic.System.Orders.{handle_command-Calm}
use real_time_cyclic.System.Steps.{
  Step, Reach, node, write_seg, Taken, serve, arrive, command, count, answer, cycle, order,
  configure, start, later,
}

Kept-Owned : (must : Bool) (g g' : Shmseg) → Kept g g' → Owned must g g'
Kept-Owned must g g' k = elim (Bool-cases g.is_connected) [
  | inl on ↦ inl ((k.0, k.2 on), k.1)
  | inr off ↦ inr (inl (inr k.0, k.1 ∙ off))
]

-- What a slave does to its segment leaves the table sound.
Kept-IsSound :
    (i : ℕ) (m : Master) (g : Shmseg)
    → IsSound m
    → Taken i m
    → Kept (segment i m) g
    → IsSound (write_seg i m g)
Kept-IsSound i m g ok taken k =
    set-TableOk m.shm.slave_shmseg i g ok taken.0 taken.1 (Kept-Owned _ (segment i m) g k)

count-Ensures :
    (Q : Master → Type 0) (os : Os) (m : Master) (s : Slot)
    → ((sems : List ℕ) → Q (record m { sig_semaphore = sems }))
    → Ensures Q (count_signal os s m)
unfolding count_signal
count-Ensures Q os m (at i) keep = elim (Bool-cases (os.sem_post_fails sig_semaphore)) [
  | inl e ↦ simp e (keep m.sig_semaphore)
  | inr e ↦ simp e (keep _)
]
count-Ensures Q os m no_idx keep = keep m.sig_semaphore
count-Ensures Q os m out_of_bounds keep = tt

async-Ensures :
    (Q : Master → Type 0) (os : Os) (m : Master) (s : Signal) (p : ℕ)
    → ((sems : List ℕ) → Q (record m { sig_semaphore = sems }))
    → Ensures Q (async_signal_handler os s (pos p) m)
unfolding async_signal_handler
async-Ensures Q os m sigusr1 p keep = count-Ensures Q os m (lookup_pid (pos p) m) keep
async-Ensures Q os m _ p keep = keep m.sig_semaphore

module _ (P : Shmseg → Type 0) (inv : Local P) where
  -- A slave, or the configurator, writes a segment.
  write-All :
      (i : ℕ) (m : Master) (g : Shmseg) → Calm P m → i < max_slaves → P g → All P (write_seg i m g)
  write-All i m g c lt h = put-All P i m (record (link_at i m) { seg = g }) c lt h

  Step-All : {m m' : Master} → Calm P m → Step m m' → All P m'
  Step-All {m = m} c (serve os i posts taken ends) =
      (final-Ensures (Calm P) m (process_signal os i m) c
        (process_signal-Calm P inv os posts i m ((c.0, taken.0, taken.1), c.1))).1
  Step-All {m = m} c (arrive os p ends) =
      (final-Ensures (Calm P) m (admit os (pos p) m) c (admit-Calm P inv os p m c)).1
  Step-All {m = m} c (command os p e ends) =
      (final-Ensures (Calm P) m (handle_command os m) c (handle_command-Calm P inv os m p c e)).1
  Step-All {m = m} c (count os s p ends) =
      final-Ensures (All P) m (async_signal_handler os s (pos p) m) c.1
        (async-Ensures (All P) os m s p (λ sems. c.1))
  Step-All {m = m} c (answer os i self taken ends) = write-All i m _ c taken.0 (
      final-Ensures (OnNode P) (node i m self) (choose_handler os (node i m self)) (c.1 i taken.0)
        (inv.answers os (node i m self) (c.1 i taken.0)))
  Step-All {m = m} c (cycle os posts rand_value now sleep_us i self taken ends) =
      write-All i m _ c taken.0 (
        final-Ensures (OnNode P) (node i m self)
          (cycle_round os posts rand_value now sleep_us (node i m self)) (c.1 i taken.0)
          (inv.cycles os posts rand_value now sleep_us (node i m self) (c.1 i taken.0)))
  Step-All c (order control) = c.1
  Step-All {m = m} c (configure i requested cycle_us taken) =
      write-All i m _ c taken.0 (inv.configures (segment i m) requested cycle_us (c.1 i taken.0))

Step-IsSound : {m m' : Master} → Calm Settled m → Step m m' → IsSound m'
Step-IsSound {m = m} c (serve os i posts taken ends) =
    final-Ensures IsSound m (process_signal os i m) c.0
      (process_signal-IsSound os i m (c.0, taken.0, taken.1))
Step-IsSound {m = m} c (arrive os p ends) =
    final-Ensures IsSound m (admit os (pos p) m) c.0 (admit-IsSound os p m c.0)
Step-IsSound {m = m} c (command os p e ends) =
    final-Ensures IsSound m (handle_command os m) c.0 (handle_command-Ensures os m p c.0 e)
Step-IsSound {m = m} c (count os s p ends) =
    final-Ensures IsSound m (async_signal_handler os s (pos p) m) c.0
      (async-Ensures IsSound os m s p (λ sems. c.0))
Step-IsSound {m = m} c (answer os i self taken ends) = Kept-IsSound i m _ c.0 taken (
    final-Ensures (KeptBy (node i m self)) (node i m self) (choose_handler os (node i m self))
      (Kept-refl (segment i m)) (choose_handler-Kept os (node i m self) (c.1 i taken.0)))
Step-IsSound {m = m} c (cycle os posts rand_value now sleep_us i self taken ends) =
    Kept-IsSound i m _ c.0 taken (
      final-Ensures (KeptBy (node i m self)) (node i m self)
        (cycle_round os posts rand_value now sleep_us (node i m self)) (Kept-refl (segment i m))
        (round-Kept (node i m self) os posts rand_value now sleep_us))
Step-IsSound c (order control) = c.0
Step-IsSound {m = m} c (configure i requested cycle_us taken) =
    Kept-IsSound i m _ c.0 taken (ground arith)

module _ (own_pid : ℤ) (control : ControlShm) where
  start-Calm : (P : Shmseg → Type 0) → Local P → Calm P (init own_pid control)
  start-Calm P inv = (init-TableOk own_pid control, inv.starts own_pid control)

  -- In every state that the program reaches by any order of its steps (each a handler that runs without
  -- interruption, to its end or to where it first sleeps), whatever calls other than the
  -- post of the master's request semaphore fail: every pid stands in one segment at most, a connected
  -- segment has an owner, no two connected slaves have the same name, and no connected slave has a
  -- request for its name left to answer.
  pub reachable-Calm : (m : Master) → Reach own_pid control m → Calm Settled m
  reachable-Calm _ start = start-Calm Settled Settled-Local
  reachable-Calm _ (later r s) =
      let c = reachable-Calm _ r in (Step-IsSound c s, Step-All Settled Settled-Local c s)

  -- A property that every handler keeps holds of every segment in every state that is reached.
  pub reachable-All :
      (P : Shmseg → Type 0) → Local P → (m : Master) → Reach own_pid control m → All P m
  reachable-All P inv _ start = inv.starts own_pid control
  reachable-All P inv _ (later r s) =
      Step-All P inv ((reachable-Calm _ r).0, reachable-All P inv _ r) s
