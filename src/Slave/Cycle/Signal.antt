-- ===== src/Slave/Cycle/Signal.antt =====
-- The signal that carries the slave's parameters to the master.
use real_time_cyclic.Prelude.{
  ℕ, zero, suc, Bool, true, refl, ◌+◌, ◌-◌, ◌<◌, ◌≡◌, ◌⊎◌, false, ◌∷◌, arith, ℤ, pos,
}
use real_time_cyclic.Common.{sigusr1, signal_master_parameter, ack}
use real_time_cyclic.Os.{Os, Returns, Returns-bind, allow_communication_cycle, s_to_m_request, ◌>>◌}
use real_time_cyclic.Slave.Node.{
  Node, set_error_seg, sem_post, sem_wait, kill, send_master_ack_response,
  send_master_nack_response,
}
use real_time_cyclic.Slave.Requests.{handle_stop_cycle_slave_request}
use real_time_cyclic.Slave.Cycle.{
  Meanwhile, stop_meanwhile, ask_master, timeout_segments, await_master, div_segments,
  send_master_signal_master_parameter_request,
}

-- The wait changes the segment only, and not the length of the cycle.
abbrev pub Waited : Node → Node → Type 0
Waited n n' =
    (n'.self ≡ n.self)
    × (n'.master_pid ≡ n.master_pid)
    × (n'.sent ≡ n.sent)
    × (n'.seg.communication_cycle_us ≡ n.seg.communication_cycle_us)
    × (n'.seg.cycle_started ≡ n.seg.cycle_started)
    × (n'.seg.req_s_to_m ≡ n.seg.req_s_to_m)

pub await_master-Waited :
    (posts : ℕ → ℕ) (left : ℕ) (n : Node)
    → Returns (λ _ n'. Waited n n') (await_master posts left n)
unfolding await_master set_error_seg
await_master-Waited posts zero n = ground arith
await_master-Waited posts (suc left) n =
    let u : Node = record n {
      seg = record (n.seg) {
        sem_s_to_m_request = n.seg.sem_s_to_m_request + posts (timeout_segments - suc left);
      };
    } in
    ground (arith, await_master-Waited posts left u)

-- The semaphore of the cycle is at 1 while the cycle is started, and otherwise at 0.
abbrev pub InStep : Node → Type 0
InStep n =
    ((n.seg.cycle_started ≡ true) × (n.self.allow_cycle ≡ 1))
    ⊎ ((n.seg.cycle_started ≡ false) × (n.self.allow_cycle ≡ 0))

-- The cycle was stopped before, and nothing is sent; or it is stopped meanwhile, and the slave sends
-- only the signal of its answer ACK to that; or it runs on, and the master is asked to take the
-- parameters.
abbrev pub Outcomes : Bool → Node → ℤ → Node → Type 0
Outcomes stops n waited n' =
    ((n.seg.cycle_started ≡ false)
      × (waited ≡ pos 0)
      × (n'.sent ≡ n.sent)
      × (n'.seg.req_s_to_m ≡ n.seg.req_s_to_m)
      × (0 < n'.seg.sem_s_to_m_request))
    ⊎ ((n.seg.cycle_started ≡ true)
        × (stops ≡ true)
        × (waited ≡ pos 0)
        × (n'.seg.cycle_started ≡ false)
        × (n'.seg.res_s_to_m ≡ ack)
        × (n'.sent ≡ (n.master_pid, sigusr1) ∷ n.sent)
        × (n'.seg.req_s_to_m ≡ n.seg.req_s_to_m)
        × (0 < n'.seg.sem_s_to_m_request))
    ⊎ ((n.seg.cycle_started ≡ true)
        × (stops ≡ false)
        × (waited ≡ div_segments n.seg.communication_cycle_us)
        × (n'.seg.cycle_started ≡ true)
        × (n'.sent ≡ (n.master_pid, sigusr1) ∷ n.sent)
        × (n'.seg.req_s_to_m ≡ signal_master_parameter))

module _ (os : Os) (m : Meanwhile) (n : Node) (step : InStep n)
    (value : os.sem_getvalue_fails allow_communication_cycle ≡ false)
    (post : os.sem_post_fails s_to_m_request ≡ false)
    (wait : os.sem_wait_fails allow_communication_cycle ≡ false)
    (sig : os.kill_fails n.master_pid sigusr1 ≡ false) where
  after_wait-Outcomes :
      (stops : Bool) (t : Node)
      → m.stops ≡ stops
      → Waited n t
      → Returns (Outcomes m.stops n) (
          (do stop_meanwhile os stops; ask_master os (div_segments n.seg.communication_cycle_us)) t)
  unfolding stop_meanwhile handle_stop_cycle_slave_request sem_wait send_master_ack_response
      send_master_nack_response set_error_seg kill sem_post ask_master
  after_wait-Outcomes true t e k = ground (arith, e, k, step, value, post, wait, sig)
  after_wait-Outcomes false t e k = ground (arith, e, k, step, value, post, wait, sig)

  -- However long the slave waits for the answer to its last signal, and whether or not the answer
  -- comes, if no other call fails and the semaphore of the cycle is at 1 while the cycle is started
  -- and at 0 otherwise: when the cycle was stopped before, or is stopped while the slave waits, it does
  -- not ask the master to take parameters, gives the request semaphore back and returns 0; when it
  -- runs on, the slave asks and signals the master and returns a twentieth of the cycle's length.
  pub send_parameter-Outcomes :
      Returns (Outcomes m.stops n) (send_master_signal_master_parameter_request os m n)
  unfolding send_master_signal_master_parameter_request
  send_parameter-Outcomes =
      Returns-bind (λ _ n'. Waited n n') (Outcomes m.stops n)
        (await_master m.posts timeout_segments) _ n (λ _ t k. after_wait-Outcomes m.stops t refl k)
        (await_master-Waited m.posts timeout_segments n)
