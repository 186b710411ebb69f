-- ===== src/Slave/Kept.antt =====
-- What a slave may do to its segment, whatever calls fail.
pub mod Rounds
use real_time_cyclic.Prelude.{
  ℕ, zero, suc, ◌<◌, ◌≡◌, ◌≢◌, ◌⊎◌, Option-cases, ltb, List, Bool, ◌+◌, ◌-◌, ◌%◌, ◌^◌, inl, inr,
  true, false, arith, ℤ,
}
use real_time_cyclic.Common.{
  Shmseg, Request, connect_slave, disconnect_slave, change_slave_name, start_slave_cycle,
  stop_slave_cycle, name_index_overflow, sem_post_failed,
}
use real_time_cyclic.Os.{Os, allow_communication_cycle, Ensures, Ensures-bind, when, ◌>>◌, ◌>>=◌}
use real_time_cyclic.Common.Text.{c_string, strcpy}
use real_time_cyclic.Slave.Node.{
  Node, send_master_ack_response, kill, send_master_nack_response, set_error, set_error_seg,
  update_seg, sem_post, sem_wait,
}
use real_time_cyclic.Slave.Name.{
  handle_change_name_slave_request, number_name, erase_names, numbered,
}
use real_time_cyclic.Slave.Requests.{
  dispatch_master_request, handle_master_request, handle_master_response,
  handle_connect_slave_request, handle_disconnect_slave_request, handle_start_cycle_slave_request,
  handle_stop_cycle_slave_request, handle_unrecognized_request,
}
use real_time_cyclic.Slave.Cycle.{
  Timeval, timeout_segments, cycle_round, communicate, fill_parameters, await_master,
  calculate_parameter_communication_interval, send_master_signal_master_parameter_request,
}
use real_time_cyclic.Slave.Signals.{choose_handler}

-- The slave changes neither the owner of the segment nor its connection, and not the name of a
-- connected one; nor what the master asked.
abbrev pub Kept : Shmseg → Shmseg → Type 0
Kept g g' =
    (g'.pid ≡ g.pid)
    × (g'.is_connected ≡ g.is_connected)
    × (g.is_connected ≡ true → g'.name ≡ g.name)
    × (g'.req_m_to_s ≡ g.req_m_to_s)
    × (g'.sem_m_to_s_request ≡ g.sem_m_to_s_request)

pub Kept-refl : (g : Shmseg) → Kept g g
Kept-refl g = ground arith

-- The requests that make a slave write its name.
abbrev pub IsNaming : Request → Type 0
IsNaming connect_slave = Unit
IsNaming change_slave_name = Unit
IsNaming _ = ⊥

-- A connected slave has answered the request for its name.
abbrev pub Settled : Shmseg → Type 0
Settled g = g.is_connected ≡ true → IsNaming g.req_m_to_s → 0 < g.sem_m_to_s_request

-- The new name that is written.
abbrev pub renumbered : Node → List ℕ
renumbered t = numbered (c_string t.seg.name) ((t.self.change_name_idx + 1) % 2 ^ 32)

abbrev pub KeptBy : Node → Node → Type 0
KeptBy n n' = Kept n.seg n'.seg

module _ (os : Os) (n : Node) where
  connect-Kept :
      (n.seg.is_connected ≢ true) → Ensures (KeptBy n) (handle_connect_slave_request os n)
  unfolding handle_connect_slave_request send_master_ack_response kill
  connect-Kept h = elim (Option-cases (strcpy n.seg.name (c_string n.self.name))) [
    | inl e ↦ simp e tt
    | inr (name, e) ↦ simp e (ground (arith, h))
  ]

  disconnect-Kept : Ensures (KeptBy n) (handle_disconnect_slave_request os n)
  unfolding handle_disconnect_slave_request send_master_ack_response kill
  disconnect-Kept = ground arith

  start-Kept : Ensures (KeptBy n) (handle_start_cycle_slave_request os n)
  unfolding handle_start_cycle_slave_request set_error_seg send_master_ack_response kill
      send_master_nack_response sem_post
  start-Kept = ground arith

  stop-Kept : Ensures (KeptBy n) (handle_stop_cycle_slave_request os n)
  unfolding handle_stop_cycle_slave_request set_error_seg send_master_ack_response kill
      send_master_nack_response sem_wait
  stop-Kept = ground arith

  unrecognized-Kept : Ensures (KeptBy n) (handle_unrecognized_request os n)
  unfolding handle_unrecognized_request set_error_seg send_master_nack_response kill
  unrecognized-Kept = ground arith

  response-Kept : Ensures (KeptBy n) (handle_master_response os n)
  unfolding handle_master_response
  response-Kept = ground arith

  number-Kept :
      (t : Node) → (n.seg.is_connected ≢ true) → KeptBy n t → Ensures (KeptBy n) (number_name os t)
  unfolding number_name send_master_ack_response kill
  number-Kept t h k = elim (Option-cases (strcpy t.self.name (renumbered t))) [
    | inl e ↦ simp e tt
    | inr (name, e) ↦ elim (Option-cases (strcpy t.seg.name (c_string name))) [
      | inl e' ↦ simp (e, e') tt
      | inr (name', e') ↦ simp (e, e') (ground (arith, h, k))
    ]
  ]

  refuse-Kept :
      (t : Node)
      → KeptBy n t
      → Ensures (KeptBy n) ((set_error name_index_overflow >> send_master_nack_response os) t)
  unfolding set_error_seg send_master_nack_response kill
  refuse-Kept t k = ground (arith, k)

  erase-Kept : (b : Bool) → (n.seg.is_connected ≢ true) → Ensures (KeptBy n) (when b erase_names n)
  unfolding erase_names
  erase-Kept true h = ground (arith, h)
  erase-Kept false h = ground arith

  rename-Kept :
      (n.seg.is_connected ≢ true) → Ensures (KeptBy n) (handle_change_name_slave_request os n)
  unfolding handle_change_name_slave_request
  rename-Kept h =
      Ensures-bind (KeptBy n) (KeptBy n) (when (ltb 0 n.self.change_name_idx) erase_names) _ n
        (λ t k. k) (λ _ t k. ground (arith, refuse-Kept t k, number-Kept t h k))
        (erase-Kept (ltb 0 n.self.change_name_idx) h)

  dispatch-Kept :
      (r : Request)
      → (n.seg.is_connected ≡ true → IsNaming r → ⊥)
      → Ensures (KeptBy n) (dispatch_master_request os r n)
  unfolding dispatch_master_request
  dispatch-Kept connect_slave h = connect-Kept (λ e. h e tt)
  dispatch-Kept change_slave_name h = rename-Kept (λ e. h e tt)
  dispatch-Kept disconnect_slave h = disconnect-Kept
  dispatch-Kept start_slave_cycle h = start-Kept
  dispatch-Kept stop_slave_cycle h = stop-Kept
  dispatch-Kept _ h = unrecognized-Kept

  pub choose_handler-Kept : Settled n.seg → Ensures (KeptBy n) (choose_handler os n)
  unfolding choose_handler handle_master_request
  choose_handler-Kept h = ground (arith, response-Kept, dispatch-Kept n.seg.req_m_to_s, h)
