-- ===== src/Tests/SystemTests.antt =====
-- The whole program at a run of its first steps.
use real_time_cyclic.Prelude.{ℕ, ◌<◌, ◌≡◌, ◌≢◌, true, refl, sym, subst, length, ◌∙◌, arith, pos}
use real_time_cyclic.Common.{max_slaves, no_pid, zeroed_shmseg}
use real_time_cyclic.Table.{no_idx, get_assigned_idx, assign_idx, probe}
use real_time_cyclic.Os.{reliable, final_state, Returns}
use real_time_cyclic.Master.State.{Master, segment, on_segment}
use real_time_cyclic.Master.Init.{init, init_semaphores}
use real_time_cyclic.Master.Processor.{process_signal, admit, admit_slot, claim_slot, claim}
use real_time_cyclic.Master.Send.{send_connect_slave_request}
use real_time_cyclic.Slave.Signals.{choose_handler}
use real_time_cyclic.Slave.Requests.{
  handle_master_request, dispatch_master_request, handle_connect_slave_request,
}
use real_time_cyclic.Master.Link.{init_slave_shmseg_shared_memory}
use real_time_cyclic.Slave.Kept.{Settled}
use real_time_cyclic.System.Local.{Calm, All}
use real_time_cyclic.System.InBounds.{InBounds}
use real_time_cyclic.System.InBounds.Safety.{Runs, reachable-InBounds, reachable-Runs}
use real_time_cyclic.System.Steps.{
  Reach, Survived, node, write_seg, Taken, start, later, arrive, answer,
}
use real_time_cyclic.System.Reachable.{reachable-Calm}
use real_time_cyclic.Master.Request.{handle_slave_request}
use real_time_cyclic.Slave.Node.{Node, send_master_ack_response, kill}
use real_time_cyclic.Slave.Cycle.{fill_parameters}
use real_time_cyclic.System.Transfer.{Delivered, signalled, fill_parameters-Delivered}
use real_time_cyclic.System.Handshake.{Answered, handshake}
use real_time_cyclic.System.Handshake.Connects.{handshake-Connects}
use real_time_cyclic.Common.Text.{c_string, strcpy}
use real_time_cyclic.Common.Text.Laws.{IsText}
use real_time_cyclic.Slave.Name.Padding.{c_string-padded}
use real_time_cyclic.Master.Init.Start.{init-TableOk}
use real_time_cyclic.Master.Processor.Admit.{lookup_pid}
use real_time_cyclic.Tests.Data.{
  master_start, dave, control_start, self_dave, node_dave, seg_acknowledged, link_acknowledged,
}

-- Process 77 has a segment, and is asked to connect.
abbrev asked : Master
asked =
    final_state (init (pos 10) control_start)
      (admit reliable (pos 77) (init (pos 10) control_start))

asked_pid : (segment 13 asked).pid ≡ pos 77
unfolding init admit get_assigned_idx assign_idx probe admit_slot claim_slot claim on_segment
    send_connect_slave_request
asked_pid = refl

asked-Taken : Taken 13 asked
asked-Taken = (omega arith, λ e. pos_ne_no_pid (sym asked_pid ∙ e))
  where
    pos_ne_no_pid : pos 77 ≢ no_pid
    pos_ne_no_pid e = cc

-- The slave has answered.
abbrev answered : Master
answered =
    write_seg 13 asked
      (final_state (node 13 asked self_dave)
        (choose_handler reliable (node 13 asked self_dave))).seg

asked-Survived : Survived (admit reliable (pos 77) (init (pos 10) control_start))
unfolding init admit get_assigned_idx assign_idx probe admit_slot claim_slot claim on_segment
    send_connect_slave_request
asked-Survived = tt

answered-Survived : Survived (choose_handler reliable (node 13 asked self_dave))
unfolding init admit get_assigned_idx assign_idx probe admit_slot claim_slot claim on_segment
    send_connect_slave_request choose_handler handle_master_request dispatch_master_request
    handle_connect_slave_request strcpy c_string send_master_ack_response kill self_dave
    init_slave_shmseg_shared_memory init_semaphores zeroed_shmseg
answered-Survived = tt

answered_reached : Reach (pos 10) control_start answered
answered_reached =
    later (later start (arrive reliable 77 asked-Survived))
      (answer reliable 13 self_dave asked-Taken answered-Survived)

reachable-Calm_example : Calm Settled answered
reachable-Calm_example = reachable-Calm (pos 10) control_start answered answered_reached

reachable-InBounds_example : All InBounds answered
reachable-InBounds_example = reachable-InBounds (pos 10) control_start answered answered_reached

reachable-Runs_example :
    ((i : ℕ) → i < max_slaves → Runs (process_signal reliable i answered))
    × ((p : ℕ) → Runs (admit reliable (pos p) answered))
reachable-Runs_example = reachable-Runs (pos 10) control_start answered answered_reached reliable

-- The slave of a connected segment that was asked for a text and a number.
abbrev node_requested : Node
node_requested = record node_dave {
  seg = record seg_acknowledged { is_connected = true; requested_parameters = 3 };
}

fill_parameters-Delivered_example :
    Returns
      (λ _ n'.
        Returns
          (λ _ l'. Delivered 12345 node_requested.seg l'.seg)
          (handle_slave_request reliable (signalled link_acknowledged n'.seg)))
      (fill_parameters 12345 node_requested)
fill_parameters-Delivered_example =
    fill_parameters-Delivered reliable 12345 node_requested link_acknowledged refl
      (unfold seg_acknowledged zeroed_shmseg in refl)
      (unfold seg_acknowledged zeroed_shmseg in refl)

lookup_77 : lookup_pid (pos 77) master_start ≡ no_idx
unfolding master_start init get_assigned_idx probe
lookup_77 = refl

letters-IsText : IsText dave
letters-IsText = (omega arith, (omega arith, (omega arith, (omega arith, tt))))

dave_fits : length (c_string self_dave.name) < length (segment 13 master_start).name
unfolding self_dave master_start init zeroed_shmseg
dave_fits =
    subst (λ t. length t < 128) (sym (c_string-padded dave letters-IsText (omega arith)))
      (omega arith)

name-IsText : IsText (c_string self_dave.name)
unfolding self_dave
name-IsText = subst IsText (sym (c_string-padded dave letters-IsText (omega arith))) letters-IsText

handshake-Connects_example :
    Returns
      (λ _ m'.
        ((segment 13 m').pid ≡ pos 77)
        × (c_string (segment 13 m').name ≡ c_string self_dave.name)
        × ((segment 13 m').available_parameters ≡ self_dave.available_parameters)
        × Returns (Answered 13 m') (process_signal reliable 13 m'))
      (handshake 77 13 self_dave master_start)
handshake-Connects_example =
    handshake-Connects 77 13 master_start
      (unfold master_start in init-TableOk (pos 10) control_start) lookup_77
      (unfold master_start init assign_idx probe in refl) (unfold master_start init in refl)
      (unfold master_start init in refl) (unfold master_start init in refl) self_dave name-IsText
      dave_fits (unfold master_start init in omega arith)
