-- ===== src/Tests/ThreadTests.antt =====
-- The two threads of a slave: a slave that is started and attached, and whose cycle runs.
use real_time_cyclic.Prelude.{◌≡◌, refl, inl, pos, true}
use real_time_cyclic.Common.{
  Request, start_slave_cycle, stop_slave_cycle, error_not_set_communication_cycle,
}
use real_time_cyclic.Common.Params.{has_bit}
use real_time_cyclic.Os.{Os, done, blocked, fault, reliable}
use real_time_cyclic.Slave.Node.{sem_wait, sem_post, kill, send_master_ack_response}
use real_time_cyclic.Slave.Cycle.{
  Timeval, div_segments, fill_parameters, calculate_parameter_communication_interval,
}
use real_time_cyclic.Slave.Requests.{
  handle_master_request, dispatch_master_request, handle_start_cycle_slave_request,
  handle_stop_cycle_slave_request,
}
use real_time_cyclic.Slave.Signals.{choose_handler}
use real_time_cyclic.Slave.Threads.{
  Threads, waiting, entered, polling, listening, stopping, attach, Works, run, handle, sleep,
  others, Fresh, Reach, start, later, cycle_part, through_pointer,
}
use real_time_cyclic.Slave.Threads.Stop.{Leads, Acknowledged, stop-Acknowledged}
use real_time_cyclic.Slave.Threads.Race.{Crashes, polling-Crashes, section-Crashes}
use real_time_cyclic.Tests.Data.{node_dave, self_dave, seg_acknowledged}

abbrev noon : Timeval
noon = record { tv_sec = 43200; tv_usec = 0 }

works : Works reliable
works = record { waits = refl; posts = refl; sleeps = refl }

abbrev fresh : Threads
fresh = record {
  node = node_dave;
  cycle = waiting error_not_set_communication_cycle;
  handler = listening;
}

fresh-Fresh : Fresh fresh
unfolding node_dave self_dave seg_acknowledged
fresh-Fresh = record {
  closed = refl;
  unattached = refl;
  stopped = refl;
  waits = refl;
  listens = refl;
}

-- The master asks the slave.
abbrev ask : Request → Threads → Threads
ask r s = record s {
  node = record (s.node) { seg = record (s.node.seg) { req_m_to_s = r; sem_m_to_s_request = 0 } };
}

-- The slave handles a signal.
abbrev signalled : Threads → Threads
signalled s = elim (choose_handler reliable (attach 3 s.node)) [
  | done u n ↦ record { node = n; cycle = s.cycle; handler = listening }
  | blocked n ↦ record { node = n; cycle = s.cycle; handler = stopping }
  | fault ↦ s
]

-- The cycle thread runs on.
abbrev goes_on : Threads → Threads
goes_on s = elim (cycle_part reliable 5 noon s.cycle s.node) [
  | done pc n ↦ record { node = n; cycle = pc; handler = s.handler }
  | blocked n ↦ s
  | fault ↦ s
]

abbrev started : Threads
started = signalled (ask start_slave_cycle fresh)

abbrev inside : Threads
inside = goes_on started

abbrev waits_for_master : Threads
waits_for_master = goes_on (goes_on (goes_on (goes_on inside)))

abbrev stops : Threads
stops = signalled (ask stop_slave_cycle inside)

started-Reach : Reach fresh started
unfolding choose_handler handle_master_request dispatch_master_request
    handle_start_cycle_slave_request sem_post kill attach send_master_ack_response node_dave
    self_dave seg_acknowledged
started-Reach =
    later {s = ask start_slave_cycle fresh} {t = started}
      (later {s = fresh} {t = ask start_slave_cycle fresh} start (others _ refl (inl refl)))
      (handle reliable 3 started.node works refl refl)

inside-Reach : Reach fresh inside
unfolding cycle_part sem_wait choose_handler handle_master_request dispatch_master_request
    handle_start_cycle_slave_request sem_post kill attach send_master_ack_response node_dave
    self_dave seg_acknowledged through_pointer
inside-Reach =
    later {s = started} {t = inside} started-Reach
      (run reliable 5 noon inside.cycle inside.node works refl)

waits_for_master-Reach : Reach fresh waits_for_master
unfolding cycle_part sem_wait choose_handler handle_master_request dispatch_master_request
    handle_start_cycle_slave_request sem_post kill attach send_master_ack_response node_dave
    self_dave seg_acknowledged through_pointer fill_parameters
    calculate_parameter_communication_interval has_bit
waits_for_master-Reach =
    later {s = goes_on (goes_on (goes_on inside))} {t = waits_for_master}
      (later {s = goes_on (goes_on inside)} {t = goes_on (goes_on (goes_on inside))}
        (later {s = goes_on inside} {t = goes_on (goes_on inside)}
          (later {s = inside} {t = goes_on inside} inside-Reach
            (run reliable 5 noon (goes_on inside).cycle (goes_on inside).node works refl))
          (run reliable 5 noon (goes_on (goes_on inside)).cycle (goes_on (goes_on inside)).node
            works refl))
        (run reliable 5 noon (goes_on (goes_on (goes_on inside))).cycle
          (goes_on (goes_on (goes_on inside))).node works refl))
      (run reliable 5 noon waits_for_master.cycle waits_for_master.node works refl)

stops-Reach : Reach fresh stops
unfolding cycle_part sem_wait choose_handler handle_master_request dispatch_master_request
    handle_start_cycle_slave_request handle_stop_cycle_slave_request sem_post kill attach
    send_master_ack_response node_dave self_dave seg_acknowledged through_pointer
stops-Reach =
    later {s = ask stop_slave_cycle inside} {t = stops}
      (later {s = inside} {t = ask stop_slave_cycle inside} inside-Reach (others _ refl (inl refl)))
      (sleep reliable 3 stops.node works refl refl)

abbrev halted : Threads
halted = signalled (ask stop_slave_cycle started)

-- What each state is, where a theorem asks for it.
inside_entered : inside.cycle ≡ entered error_not_set_communication_cycle
unfolding cycle_part sem_wait choose_handler handle_master_request dispatch_master_request
    handle_start_cycle_slave_request sem_post kill attach send_master_ack_response node_dave
    self_dave seg_acknowledged through_pointer
inside_entered = refl

inside_listens : inside.handler ≡ listening
unfolding cycle_part sem_wait choose_handler handle_master_request dispatch_master_request
    handle_start_cycle_slave_request sem_post kill attach send_master_ack_response node_dave
    self_dave seg_acknowledged through_pointer
inside_listens = refl

stops_sleeping : stops.handler ≡ stopping
unfolding cycle_part sem_wait choose_handler handle_master_request dispatch_master_request
    handle_start_cycle_slave_request handle_stop_cycle_slave_request sem_post kill attach
    send_master_ack_response node_dave self_dave seg_acknowledged through_pointer
stops_sleeping = refl

polls_20 :
    (waits_for_master.cycle ≡ polling 20 (pos 25000))
    × (waits_for_master.handler ≡ listening)
    × (waits_for_master.node.seg.cycle_started ≡ true)
unfolding cycle_part sem_wait choose_handler handle_master_request dispatch_master_request
    handle_start_cycle_slave_request sem_post kill attach send_master_ack_response node_dave
    self_dave seg_acknowledged through_pointer fill_parameters
    calculate_parameter_communication_interval has_bit div_segments
polls_20 = (refl, refl, refl)

stop-Acknowledged_example : Leads stops Acknowledged
stop-Acknowledged_example =
    stop-Acknowledged reliable works 5 noon fresh stops fresh-Fresh stops-Reach stops_sleeping

polling-Crashes_example : Leads waits_for_master Crashes
polling-Crashes_example =
    polling-Crashes 3 20 (pos 25000) fresh waits_for_master fresh-Fresh waits_for_master-Reach
      polls_20.0 polls_20.1 polls_20.2

section-Crashes_example : Leads inside Crashes
section-Crashes_example =
    section-Crashes 3 error_not_set_communication_cycle fresh inside fresh-Fresh inside-Reach
      inside_entered inside_listens
