-- ===== src/System/Local.antt =====
-- What each handler of src/master.c and src/slave.c must do to one segment for a property of segments to
-- hold in every state.
use real_time_cyclic.Prelude.{
  ℕ, ◌<◌, ◌≡◌, ◌≢◌, sym, subst, ap, ◌∙◌, true, false, Bool, Bool-cases, inl, inr, arith, get_or-set,
  ◌==◌, if◌then◌else◌, ℤ, pos,
}
use real_time_cyclic.Common.{Shmseg, ControlShm, max_slaves, zeroed_shmseg}
use real_time_cyclic.Os.{Os, m_to_s_request, Ensures}
use real_time_cyclic.Master.Link.{Link}
use real_time_cyclic.Master.Send.{send_connect_slave_request}
use real_time_cyclic.Master.Send.Requests.{send, disconnect, start_cycle, stop_cycle}
use real_time_cyclic.Master.Request.{handle_slave_request, handle_slave_request_errors}
use real_time_cyclic.Master.Reply.{handle_slave_response}
use real_time_cyclic.Master.State.{Master, segment, write_link}
use real_time_cyclic.Master.Init.{init}
use real_time_cyclic.Master.Processor.Invariant.{IsSound}
use real_time_cyclic.Slave.Node.{Node}
use real_time_cyclic.Slave.Cycle.{Meanwhile, Timeval, cycle_round}
use real_time_cyclic.Slave.Signals.{choose_handler}

module _ (P : Shmseg → Type 0) where
  abbrev pub OnLink : Link → Type 0
  OnLink l = P l.seg

  abbrev pub OnNode : Node → Type 0
  OnNode n = P n.seg

  -- A property that the handlers of one segment keep.
  pub record Local : Type 0 where
    pub starts :
        (own_pid : ℤ) (control : ControlShm) (i : ℕ)
        → i < max_slaves
        → P (segment i (init own_pid control))
    pub claims : (g : Shmseg) (p : ℕ) → g.is_connected ≢ true → P g → P (record g { pid = pos p })
    pub connects :
        (os : Os) (l : Link)
        → l.seg.is_connected ≢ true
        → OnLink l
        → Ensures OnLink (send_connect_slave_request os l)
    pub disconnects : (os : Os) (l : Link) → OnLink l → Ensures OnLink (send os disconnect l)
    pub starts_cycle : (os : Os) (l : Link) → OnLink l → Ensures OnLink (send os start_cycle l)
    pub stops_cycle : (os : Os) (l : Link) → OnLink l → Ensures OnLink (send os stop_cycle l)
    pub responds :
        (os : Os)
        → os.sem_post_fails m_to_s_request ≡ false
        → (must : Bool) (l : Link) → OnLink l
        → Ensures OnLink (handle_slave_response os must l)
    pub requests : (os : Os) (l : Link) → OnLink l → Ensures OnLink (handle_slave_request os l)
    pub reports : (l : Link) → OnLink l → Ensures OnLink (handle_slave_request_errors l)
    pub answers : (os : Os) (n : Node) → OnNode n → Ensures OnNode (choose_handler os n)
    pub cycles :
        (os : Os) (posts : Meanwhile) (rand_value : ℕ) (now : Timeval) (sleep_us : ℤ) (n : Node)
        → OnNode n
        → Ensures OnNode (cycle_round os posts rand_value now sleep_us n)
    pub configures :
        (g : Shmseg) (requested : ℕ) (cycle_us : ℤ)
        → P g
        → P (record g { requested_parameters = requested; communication_cycle_us = cycle_us })

  abbrev pub All : Master → Type 0
  All m = (i : ℕ) → i < max_slaves → P (segment i m)

  -- The table is sound, and all its segments have the property.
  abbrev pub Calm : Master → Type 0
  Calm m = IsSound m × All m

  pub put-All :
      (i : ℕ) (m : Master) (l : Link) → Calm m → i < max_slaves → OnLink l → All (write_link i m l)
  put-All i m l c lt s j hj = elim (Bool-cases (i == j)) [
    | inl e ↦ subst P (sym (at_j ∙ ap (λ b. if b then l.seg else segment j m) e)) s
    | inr e ↦ subst P (sym (at_j ∙ ap (λ b. if b then l.seg else segment j m) e)) (c.1 j hj)
  ]
    where
      at_j : segment j (write_link i m l) ≡ (if i == j then l.seg else segment j m)
      at_j = get_or-set m.shm.slave_shmseg i j l.seg zeroed_shmseg (omega (arith, c.0.full))
