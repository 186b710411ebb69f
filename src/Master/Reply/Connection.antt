-- ===== src/Master/Reply/Connection.antt =====
-- How one handler changes whom a segment belongs to, whatever calls fail.
use real_time_cyclic.Prelude.{◌≡◌, ◌⊎◌, inl, inr, Bool, true, false, arith, Bool-cases}
use real_time_cyclic.Common.{
  Shmseg, Request, connect_slave, change_slave_name, disconnect_slave, start_slave_cycle,
  stop_slave_cycle, Response, ack, nack, response_size, no_pid,
}
use real_time_cyclic.Os.{Os, Ensures}
use real_time_cyclic.Master.Link.{Link}
use real_time_cyclic.Master.Reply.{handle_slave_response, connected_response, unconnected_response}

abbrev pub SameOwner : Shmseg → Shmseg → Type 0
SameOwner g g' = (g'.pid ≡ g.pid) × (g'.name ≡ g.name)

-- The segment keeps its owner and its connection; or it is not connected, and free or kept; or it becomes connected, which
-- takes a name that need not be changed.
abbrev pub Owned : Bool → Shmseg → Shmseg → Type 0
Owned must g g' =
    (SameOwner g g' × (g'.is_connected ≡ g.is_connected))
    ⊎ (((g'.pid ≡ no_pid) ⊎ (g'.pid ≡ g.pid)) × (g'.is_connected ≡ false))
    ⊎ (SameOwner g g' × (g'.is_connected ≡ true) × (must ≡ false))

abbrev pub Keeps : Bool → Link → Link → Type 0
Keeps must l l' = Owned must l.seg l'.seg

module _ (os : Os) (must : Bool) (l : Link) where
  connected-Keeps :
      (req : Request) (res : Response)
      → Ensures (Keeps must l) (connected_response os must req res l)
  unfolding connected_response
  connected-Keeps disconnect_slave nack = ground arith
  connected-Keeps disconnect_slave ack = ground arith
  connected-Keeps disconnect_slave response_size = ground arith
  connected-Keeps start_slave_cycle nack = ground arith
  connected-Keeps start_slave_cycle ack = ground arith
  connected-Keeps start_slave_cycle response_size = ground arith
  connected-Keeps stop_slave_cycle nack = ground arith
  connected-Keeps stop_slave_cycle ack = ground arith
  connected-Keeps stop_slave_cycle response_size = ground arith
  connected-Keeps _ res = ground arith

  unconnected-Keeps :
      (req : Request) (res : Response)
      → Ensures (Keeps must l) (unconnected_response os must req res l)
  unfolding unconnected_response
  unconnected-Keeps connect_slave nack = ground arith
  unconnected-Keeps connect_slave ack = ground arith
  unconnected-Keeps connect_slave response_size = ground arith
  unconnected-Keeps change_slave_name nack = ground arith
  unconnected-Keeps change_slave_name ack = ground arith
  unconnected-Keeps change_slave_name response_size = ground arith
  unconnected-Keeps _ res = ground arith

  pub handle_slave_response-Keeps : Ensures (Keeps must l) (handle_slave_response os must l)
  unfolding handle_slave_response
  handle_slave_response-Keeps = elim (Bool-cases l.seg.is_connected) [
    | inl c ↦ simp c (connected-Keeps l.seg.req_m_to_s l.seg.res_s_to_m)
    | inr n ↦ simp n (unconnected-Keeps l.seg.req_m_to_s l.seg.res_s_to_m)
  ]
