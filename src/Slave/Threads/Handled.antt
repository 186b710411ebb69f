-- ===== src/Slave/Threads/Handled.antt =====
-- What the handler of a signal does to what the two threads of the slave share.
use real_time_cyclic.Prelude.{
  ℕ, ◌+◌, ◌≡◌, refl, ◌⊎◌, Option-cases, ltb, Bool, inl, inr, true, false, arith, Option, none,
}
use real_time_cyclic.Common.{
  Request, connect_slave, disconnect_slave, change_slave_name, start_slave_cycle, stop_slave_cycle,
  name_index_overflow,
}
use real_time_cyclic.Os.{Os, Outcome, done, blocked, fault, Leaves, Leaves-bind, when, ◌>>◌}
use real_time_cyclic.Common.Text.{c_string, strcpy}
use real_time_cyclic.Slave.Node.{
  Node, send_master_ack_response, kill, send_master_nack_response, set_error, set_error_seg,
  sem_post, sem_wait,
}
use real_time_cyclic.Slave.Name.{handle_change_name_slave_request, number_name, erase_names}
use real_time_cyclic.Slave.Requests.{
  dispatch_master_request, handle_master_request, handle_master_response,
  handle_connect_slave_request, handle_disconnect_slave_request, handle_start_cycle_slave_request,
  handle_stop_cycle_slave_request, handle_unrecognized_request,
}
use real_time_cyclic.Slave.Signals.{choose_handler}
use real_time_cyclic.Slave.Kept.{renumbered}
use real_time_cyclic.Slave.Threads.{Works}

-- What the master asked stays; the semaphore, the flag of the cycle and the pointer are as given.
pub record Leaving (n : Node) (allow : ℕ) (is_started : Bool) (pointer : Option ℕ) (t : Node)
    : Type 0 where
  pub request : t.seg.req_m_to_s ≡ n.seg.req_m_to_s
  pub outstanding : t.seg.sem_m_to_s_request ≡ n.seg.sem_m_to_s_request
  pub allows : t.self.allow_cycle ≡ allow
  pub starts : t.seg.cycle_started ≡ is_started
  pub points : t.self.shmseg ≡ pointer

-- The two threads share what they shared.
abbrev pub Same : Node → Node → Type 0
Same n t = Leaving n n.self.allow_cycle n.seg.cycle_started n.self.shmseg t

-- The handler ended: it changed nothing that is shared, started the cycle, stopped it, or gave up
-- the pointer.
abbrev pub Ended : Node → Node → Type 0
Ended n t =
    Same n t
    ⊎ ((n.seg.cycle_started ≡ false)
        × (n.seg.req_m_to_s ≡ start_slave_cycle)
        × Leaving n (n.self.allow_cycle + 1) true n.self.shmseg t)
    ⊎ ((n.seg.cycle_started ≡ true)
        × ((t.self.allow_cycle + 1) ≡ n.self.allow_cycle)
        × Leaving n t.self.allow_cycle false n.self.shmseg t)
    ⊎ ((n.seg.req_m_to_s ≡ disconnect_slave)
        × (n.seg.sem_m_to_s_request ≡ 0)
        × Leaving n n.self.allow_cycle n.seg.cycle_started none t)

-- It sleeps: it stopped the cycle, and the semaphore is taken.
abbrev pub Asleep : Node → Node → Type 0
Asleep n t =
    (n.seg.cycle_started ≡ true) × (n.self.allow_cycle ≡ 0) × Leaving n 0 false n.self.shmseg t

abbrev pub Never : Node → Type 0
Never t = ⊥

module _ (os : Os) (n : Node) where
  connect-Same : Leaves (Same n) Never (handle_connect_slave_request os n)
  unfolding handle_connect_slave_request send_master_ack_response kill
  connect-Same = elim (Option-cases (strcpy n.seg.name (c_string n.self.name))) [
    | inl e ↦ simp e tt
    | inr (name, e) ↦ simp e (ground arith)
  ]

  unrecognized-Same : Leaves (Same n) Never (handle_unrecognized_request os n)
  unfolding handle_unrecognized_request set_error_seg send_master_nack_response kill
  unrecognized-Same = ground arith

  response-Same : Leaves (Same n) Never (handle_master_response os n)
  unfolding handle_master_response
  response-Same = ground arith

  number-Same : (t : Node) → Same n t → Leaves (Same n) Never (number_name os t)
  unfolding number_name send_master_ack_response kill
  number-Same t k = elim (Option-cases (strcpy t.self.name (renumbered t))) [
    | inl e ↦ simp e tt
    | inr (name, e) ↦ elim (Option-cases (strcpy t.seg.name (c_string name))) [
      | inl e' ↦ simp (e, e') tt
      | inr (name', e') ↦ simp (e, e') (ground (arith, k))
    ]
  ]

  refuse-Same :
      (t : Node)
      → Same n t
      → Leaves (Same n) Never ((set_error name_index_overflow >> send_master_nack_response os) t)
  unfolding set_error_seg send_master_nack_response kill
  refuse-Same t k = ground (arith, k)

  erase-Same : (b : Bool) → Leaves (Same n) Never (when b erase_names n)
  unfolding erase_names
  erase-Same true = ground arith
  erase-Same false = ground arith

  rename-Same : Leaves (Same n) Never (handle_change_name_slave_request os n)
  unfolding handle_change_name_slave_request
  rename-Same =
      Leaves-bind (Same n) (Same n) Never (when (ltb 0 n.self.change_name_idx) erase_names) _ n
        (λ _ t k. ground (arith, refuse-Same t k, number-Same t k))
        (erase-Same (ltb 0 n.self.change_name_idx))

  disconnect-Ended :
      n.seg.req_m_to_s ≡ disconnect_slave
      → n.seg.sem_m_to_s_request ≡ 0
      → Leaves (Ended n) (Asleep n) (handle_disconnect_slave_request os n)
  unfolding handle_disconnect_slave_request send_master_ack_response kill
  disconnect-Ended req out = ground (arith, req, out)

  start-Ended :
      Works os
      → n.seg.req_m_to_s ≡ start_slave_cycle
      → Leaves (Ended n) (Asleep n) (handle_start_cycle_slave_request os n)
  unfolding handle_start_cycle_slave_request set_error_seg send_master_ack_response kill
      send_master_nack_response sem_post
  start-Ended w req = ground (arith, w.posts, req)

  stop-Ended : Works os → Leaves (Ended n) (Asleep n) (handle_stop_cycle_slave_request os n)
  unfolding handle_stop_cycle_slave_request set_error_seg send_master_ack_response kill
      send_master_nack_response sem_wait
  stop-Ended w = ground (arith, w.waits)

  Same-Ended :
      {A : Type 0} (o : Outcome Node A) → Leaves (Same n) Never o → Leaves (Ended n) (Asleep n) o
  Same-Ended (done a t) k = inl k
  Same-Ended (blocked t) k = absurd k
  Same-Ended fault k = tt

  dispatch-Ended :
      (r : Request)
      → Works os
      → n.seg.req_m_to_s ≡ r
      → n.seg.sem_m_to_s_request ≡ 0
      → Leaves (Ended n) (Asleep n) (dispatch_master_request os r n)
  unfolding dispatch_master_request
  dispatch-Ended connect_slave w req out = Same-Ended _ connect-Same
  dispatch-Ended change_slave_name w req out = Same-Ended _ rename-Same
  dispatch-Ended disconnect_slave w req out = disconnect-Ended req out
  dispatch-Ended start_slave_cycle w req out = start-Ended w req
  dispatch-Ended stop_slave_cycle w req out = stop-Ended w
  dispatch-Ended _ w req out = Same-Ended _ unrecognized-Same

  -- A signal of the master, whatever calls other than those on the slave's own semaphore fail.
  pub choose_handler-Ended : Works os → Leaves (Ended n) (Asleep n) (choose_handler os n)
  unfolding choose_handler handle_master_request
  choose_handler-Ended w =
      ground (arith, Same-Ended _ response-Same, dispatch-Ended n.seg.req_m_to_s w refl)
