-- ===== src/Tests/MasterTests.antt =====
-- Tests of the master, and its theorems at inputs that meet their hypotheses.
use real_time_cyclic.Prelude.{
  ℕ, ◌<◌, ◌≡◌, refl, ◌≢◌, ◌⊎◌, true, false, List, [], ◌∷◌, take, arith, pos, get_or,
}
use real_time_cyclic.Common.{
  Shmseg, zeroed_shmseg, max_slaves, connect_slave, rtc_success, sigusr1, usleep_failed,
  already_stopped, shmseg_error_size, SlaveError, start_slave_cycle, stop_slave_cycle,
  disconnect_slave,
}
use real_time_cyclic.Table.{at, no_idx, get_assigned_idx, assign_idx, probe}
use real_time_cyclic.Table.Exact.{get_assigned_idx_exact}
use real_time_cyclic.Os.{reliable, Returns, Ensures, Survives, done, blocked, fault}
use real_time_cyclic.Master.Link.{Link}
use real_time_cyclic.Master.State.{segment}
use real_time_cyclic.Master.Init.{init}
use real_time_cyclic.Master.Init.Start.{init-TableOk, init-IsFree}
use real_time_cyclic.Master.Send.Requests.{send, send_ready, send_busy, disconnect, start_cycle}
use real_time_cyclic.Master.Request.{handle_slave_request, handle_slave_request_errors}
use real_time_cyclic.Master.Request.Parameters.{missing_bool_undetected, bool_misses}
use real_time_cyclic.Master.Request.Errors.{errors_round_trip, report, logged}
use real_time_cyclic.Master.Reply.{handle_slave_response, unconnected_response}
use real_time_cyclic.Master.Reply.Protocol.{handle_slave_response-Replied, Replied}
use real_time_cyclic.Master.Processor.{admit, claim, process_signal, serving}
use real_time_cyclic.Master.Processor.Invariant.{IsSound, process_signal-IsSound}
use real_time_cyclic.Master.Processor.Admit.{claim-Serves, admit-lookup, lookup_pid}
use real_time_cyclic.Master.Commands.{handle_command}
use real_time_cyclic.Master.Commands.Safety.{
  handle_command-IsSound, disconnect_unknown, Absent, Nacked, commanded,
}
use real_time_cyclic.Tests.Data.{master_start, link_acknowledged, control_start, seg_acknowledged}

-- The request to connect is answered: the slave is connected, and the configurator hears of it.
connects :
    Returns
      (λ r l. (r ≡ rtc_success) × (l.seg.is_connected ≡ true) × (l.seg.sem_m_to_s_request ≡ 1))
      (handle_slave_response reliable false link_acknowledged)
unfolding handle_slave_response unconnected_response link_acknowledged
connects = (refl, refl, refl)

handle_slave_response-Replied_example :
    Returns (Replied true link_acknowledged) (handle_slave_response reliable true link_acknowledged)
handle_slave_response-Replied_example =
    handle_slave_response-Replied reliable true link_acknowledged (unfold link_acknowledged in refl)
      (λ s. refl) (λ s. refl) refl

lookup_start : lookup_pid (pos 77) master_start ≡ no_idx
unfolding master_start init get_assigned_idx probe
lookup_start = refl

admit-lookup_example :
    Returns
      (λ t m'.
        (t ≡ serving 13)
        × (lookup_pid (pos 77) m' ≡ at 13)
        × ((q : ℕ) → q ≢ 77 → lookup_pid (pos q) m' ≡ lookup_pid (pos q) master_start)
        × (m'.sent ≡ (pos 77, sigusr1) ∷ master_start.sent)
        × ((segment 13 m').req_m_to_s ≡ connect_slave)
        × ((segment 13 m').sem_m_to_s_request ≡ 0))
      (admit reliable (pos 77) master_start)
admit-lookup_example =
    admit-lookup reliable 77 13 0 master_start
      (unfold master_start in init-TableOk (pos 10) control_start) lookup_start
      (unfold master_start init assign_idx probe in refl) (unfold master_start init in refl) refl
      refl

process_signal-IsSound_example :
    Ensures IsSound (process_signal reliable 13 (claim 13 (pos 77) master_start))
process_signal-IsSound_example =
    process_signal-IsSound reliable 13 (claim 13 (pos 77) master_start) (
      claim-Serves 77 13 master_start (unfold master_start in init-TableOk (pos 10) control_start)
        lookup_start (unfold master_start init assign_idx probe in refl))

get_assigned_idx_exact_example :
    ((i : ℕ) × (get_assigned_idx (λ (g : Shmseg). g.pid) zeroed_shmseg (pos 77) [] ≡ at i)
      × (i < max_slaves)
      × ((get_or [] i zeroed_shmseg).pid ≡ pos 77))
    ⊎ ((get_assigned_idx (λ (g : Shmseg). g.pid) zeroed_shmseg (pos 77) [] ≡ no_idx)
        × ((j : ℕ) → j < max_slaves → (get_or [] j zeroed_shmseg).pid ≢ pos 77))
get_assigned_idx_exact_example = get_assigned_idx_exact (λ g. g.pid) zeroed_shmseg 77 []

two_errors : List SlaveError
two_errors = usleep_failed ∷ already_stopped ∷ []

errors_round_trip_example :
    handle_slave_request_errors
      (record link_acknowledged { seg = report two_errors link_acknowledged.seg })
    ≡ done tt (record link_acknowledged {
      log =
          logged link_acknowledged.seg.pid
            (take shmseg_error_size two_errors)
            link_acknowledged.log;
    })
errors_round_trip_example =
    errors_round_trip two_errors link_acknowledged
      (unfold link_acknowledged in (refl, refl, omega arith))

missing_bool_undetected_example :
    Ensures
      (λ l'. bool_misses l'.log ≡ bool_misses link_acknowledged.log)
      (handle_slave_request reliable link_acknowledged)
missing_bool_undetected_example = missing_bool_undetected reliable link_acknowledged

abbrev link_ready : Link
link_ready = record link_acknowledged { seg = record seg_acknowledged { sem_m_to_s_request = 1 } }

send_ready_example :
    send reliable start_cycle link_ready
    ≡ done rtc_success (record link_ready {
      seg = record (link_ready.seg) { sem_m_to_s_request = 0; req_m_to_s = start_slave_cycle };
      sent = (link_ready.seg.pid, sigusr1) ∷ link_ready.sent;
    })
send_ready_example =
    send_ready reliable start_cycle link_ready 0 refl (λ _ e. unfold seg_acknowledged in cc) refl
      refl

send_busy_example : send reliable disconnect link_acknowledged ≡ blocked link_acknowledged
send_busy_example =
    send_busy reliable disconnect link_acknowledged (unfold link_acknowledged in refl) (λ e. cc)
      refl

handle_command-IsSound_example : Survives IsSound (handle_command reliable master_start)
handle_command-IsSound_example =
    handle_command-IsSound reliable master_start 77
      (unfold master_start in init-TableOk (pos 10) control_start)
      (unfold master_start init in refl)
      (λ e. absurd (unfold master_start init in ground (arith, e)))

Absent-77 : Absent 77 master_start
unfolding master_start
Absent-77 j lt e = ground (arith, (init-IsFree (pos 10) control_start j lt).unowned, e)

disconnect_unknown_example :
    (handle_command reliable (commanded disconnect_slave master_start) ≡ fault)
    × Nacked master_start (handle_command reliable (commanded start_slave_cycle master_start))
    × Nacked master_start (handle_command reliable (commanded stop_slave_cycle master_start))
disconnect_unknown_example =
    disconnect_unknown reliable master_start 77 (unfold master_start init in refl) Absent-77
