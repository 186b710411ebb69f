-- ===== src/System/Steps.antt =====
-- The steps of the whole program on the shared state. A step runs one handler to its end, or up to
-- the `sem_wait` in which it sleeps and from which it is not taken up again; the processor threads, the
-- slaves and the configurator take their steps in any order. A handler that leaves an array has no
-- step: a run ends before it, since what the program does from there on is not defined.
use real_time_cyclic.Prelude.{ℕ, ◌<◌, ◌≡◌, ◌≢◌, false, [], ℤ, pos}
use real_time_cyclic.Common.{Shmseg, ControlShm, Signal, max_slaves, no_pid}
use real_time_cyclic.Os.{Os, Outcome, Survives, m_to_s_request, final_state}
use real_time_cyclic.Master.State.{Master, segment, link_at, write_link}
use real_time_cyclic.Master.Init.{init, async_signal_handler}
use real_time_cyclic.Master.Processor.{admit, process_signal}
use real_time_cyclic.Master.Commands.{handle_command}
use real_time_cyclic.Slave.Node.{Self, Node}
use real_time_cyclic.Slave.Cycle.{Meanwhile, Timeval, cycle_round}
use real_time_cyclic.Slave.Signals.{choose_handler}

-- A slave with this context, attached to segment `i`.
abbrev pub node : ℕ → Master → Self → Node
node i m self = record { self = self; seg = segment i m; master_pid = m.shm.master_pid; sent = [] }

abbrev pub write_seg : ℕ → Master → Shmseg → Master
write_seg i m g = write_link i m (record (link_at i m) { seg = g })

-- Where a segment has an owner.
abbrev pub Taken : ℕ → Master → Type 0
Taken i m = (i < max_slaves) × ((segment i m).pid ≢ no_pid)

-- The handler ends or sleeps.
abbrev pub Survived : {S A : Type 0} → Outcome S A → Type 0
Survived o = Survives (λ _. Unit {0}) o

pub data Step (m : Master) : Master → Type 0 where
  -- A thread of the master handles a signal of the slave that it serves.
  serve :
      (os : Os) (i : ℕ)
      → os.sem_post_fails m_to_s_request ≡ false
      → Taken i m
      → Survived (process_signal os i m)
      → Step m (final_state m (process_signal os i m))
  -- A new thread of the master looks for a segment for a process.
  arrive :
      (os : Os) (p : ℕ)
      → Survived (admit os (pos p) m)
      → Step m (final_state m (admit os (pos p) m))
  -- The master carries out the command in the control segment.
  command :
      (os : Os) (p : ℕ)
      → m.control.affected_slave_pid ≡ pos p
      → Survived (handle_command os m)
      → Step m (final_state m (handle_command os m))
  -- The master counts a signal.
  count :
      (os : Os) (s : Signal) (p : ℕ)
      → Survived (async_signal_handler os s (pos p) m)
      → Step m (final_state m (async_signal_handler os s (pos p) m))
  -- A slave handles a signal of the master.
  answer :
      (os : Os) (i : ℕ) (self : Self)
      → Taken i m
      → Survived (choose_handler os (node i m self))
      → Step m (write_seg i m (final_state (node i m self) (choose_handler os (node i m self))).seg)
  -- A slave runs a round of its cycle.
  cycle :
      (os : Os) (posts : Meanwhile) (rand_value : ℕ) (now : Timeval) (sleep_us : ℤ) (i : ℕ)
      (self : Self)
      → Taken i m
      → Survived (cycle_round os posts rand_value now sleep_us (node i m self))
      → Step m (
          write_seg i m
            (final_state
              (node i m self)
              (cycle_round os posts rand_value now sleep_us (node i m self))).seg)
  -- The configurator writes a command.
  order : (control : ControlShm) → Step m (record m { control = control })
  -- The configurator chooses the parameters and the length of a slave's cycle.
  configure :
      (i requested : ℕ) (cycle_us : ℤ)
      → Taken i m
      → Step m (
          write_seg i m (record (segment i m) {
            requested_parameters = requested;
            communication_cycle_us = cycle_us;
          }))

-- The states that a master with this pid reaches.
pub data Reach (own_pid : ℤ) (control : ControlShm) : Master → Type 0 where
  start : Reach own_pid control (init own_pid control)
  later : {m m' : Master} → Reach own_pid control m → Step m m' → Reach own_pid control m'
