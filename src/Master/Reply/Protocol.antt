-- ===== src/Master/Reply/Protocol.antt =====
-- What one answer of the slave does to the request semaphore, the connection and the thread.
use real_time_cyclic.Prelude.{
  ◌≡◌, ◌≢◌, refl, ◌⊎◌, inl, inr, Bool, true, false, ◌∷◌, arith, Bool-cases,
}
use real_time_cyclic.Common.{
  Ret, rtc_success, rtc_error, Request, connect_slave, change_slave_name, disconnect_slave,
  start_slave_cycle, stop_slave_cycle, Response, ack, nack, response_size, sigusr1, no_pid,
}
use real_time_cyclic.Os.{Os, m_to_s_request, s_to_m_request, Sem, Returns}
use real_time_cyclic.Master.Link.{Link}
use real_time_cyclic.Master.Reply.{handle_slave_response, connected_response, unconnected_response}

-- The slave acknowledged the request to connect, or the one to change its name.
abbrev pub Accepted : Link → Type 0
Accepted l =
    (l.seg.is_connected ≡ false)
    × ((l.seg.req_m_to_s ≡ connect_slave) ⊎ (l.seg.req_m_to_s ≡ change_slave_name))
    × (l.seg.res_s_to_m ≡ ack)

-- Any other answer.
abbrev pub Unaccepted : Link → Type 0
Unaccepted l =
    (l.seg.is_connected ≡ true)
    ⊎ (l.seg.res_s_to_m ≢ ack)
    ⊎ ((l.seg.req_m_to_s ≢ connect_slave) × (l.seg.req_m_to_s ≢ change_slave_name))

-- The slave is connected and the request is over; or its name is taken, and it is not connected but
-- asked to change the name; or the connection is as before and the request is over.
abbrev pub Settled : Bool → Link → Link → Type 0
Settled must l l' =
    (Accepted l × (must ≡ false) × (l'.seg.is_connected ≡ true) × (l'.seg.sem_m_to_s_request ≡ 1))
    ⊎ (Accepted l
        × (must ≡ true)
        × (l'.seg.is_connected ≡ false)
        × (l'.seg.sem_m_to_s_request ≡ 0)
        × (l'.seg.req_m_to_s ≡ change_slave_name)
        × (l'.sent ≡ (l.seg.pid, sigusr1) ∷ l.sent))
    ⊎ (Unaccepted l × (l'.seg.is_connected ≡ l.seg.is_connected) × (l'.seg.sem_m_to_s_request ≡ 1))

-- A processor thread is stopped, and its segment is free again.
abbrev pub Released : Ret → Link → Type 0
Released r l' =
    (r ≡ rtc_error)
    × (l'.seg.pid ≡ no_pid)
    × (l'.seg.is_connected ≡ false)
    × (l'.seg.sem_m_to_s_request ≡ 1)
    × (l'.seg.sem_s_to_m_request ≡ 1)

-- The thread goes on with the same process, and the slave's own semaphore is left alone.
abbrev pub Served : Bool → Link → Ret → Link → Type 0
Served must l r l' =
    (r ≡ rtc_success)
    × (l'.seg.pid ≡ l.seg.pid)
    × (l'.seg.name ≡ l.seg.name)
    × (l'.seg.sem_s_to_m_request ≡ l.seg.sem_s_to_m_request)
    × Settled must l l'

-- After a response the master's side of the segment is one of these.
abbrev pub Replied : Bool → Link → Ret → Link → Type 0
Replied must l r l' =
    (Released r l'
      × (l.seg.is_connected ≡ true)
      × (l.seg.req_m_to_s ≡ disconnect_slave)
      × (l.seg.res_s_to_m ≡ ack))
    ⊎ Served must l r l'

module _ (os : Os) (must : Bool) (l : Link) (taken : l.seg.sem_m_to_s_request ≡ 0)
    (posts : (s : Sem) → os.sem_post_fails s ≡ false)
    (waits : (s : Sem) → os.sem_wait_fails s ≡ false)
    (kills : os.kill_fails l.seg.pid sigusr1 ≡ false) where
  connected-Replied :
      (req : Request) (res : Response)
      → l.seg.is_connected ≡ true
      → l.seg.req_m_to_s ≡ req
      → l.seg.res_s_to_m ≡ res
      → Returns (Replied must l) (connected_response os must req res l)
  unfolding connected_response
  connected-Replied disconnect_slave nack c e f = ground (arith, posts m_to_s_request)
  connected-Replied disconnect_slave ack c e f =
      ground (arith, posts m_to_s_request, posts s_to_m_request)
  connected-Replied disconnect_slave response_size c e f = ground (arith, posts m_to_s_request)
  connected-Replied start_slave_cycle nack c e f = ground (arith, posts m_to_s_request)
  connected-Replied start_slave_cycle ack c e f = ground (arith, posts m_to_s_request)
  connected-Replied start_slave_cycle response_size c e f = ground (arith, posts m_to_s_request)
  connected-Replied stop_slave_cycle nack c e f = ground (arith, posts m_to_s_request)
  connected-Replied stop_slave_cycle ack c e f = ground (arith, posts m_to_s_request)
  connected-Replied stop_slave_cycle response_size c e f = ground (arith, posts m_to_s_request)
  connected-Replied _ res c e f = ground (arith, posts m_to_s_request)

  unconnected-Replied :
      (req : Request) (res : Response)
      → l.seg.is_connected ≡ false
      → l.seg.req_m_to_s ≡ req
      → l.seg.res_s_to_m ≡ res
      → Returns (Replied must l) (unconnected_response os must req res l)
  unfolding unconnected_response
  unconnected-Replied connect_slave nack n e f = ground (arith, posts m_to_s_request)
  unconnected-Replied connect_slave ack n e f =
      ground (arith, posts m_to_s_request, waits m_to_s_request)
  unconnected-Replied connect_slave response_size n e f = ground (arith, posts m_to_s_request)
  unconnected-Replied change_slave_name nack n e f = ground (arith, posts m_to_s_request)
  unconnected-Replied change_slave_name ack n e f =
      ground (arith, posts m_to_s_request, waits m_to_s_request)
  unconnected-Replied change_slave_name response_size n e f = ground (arith, posts m_to_s_request)
  unconnected-Replied _ res n e f = ground (arith, posts m_to_s_request)

  -- With a request outstanding and no failing call, the handler of an answer returns: it neither
  -- sleeps nor faults. Either a connected slave acknowledged DISCONNECT_SLAVE, and the thread ends
  -- with the segment free and both request semaphores at 1; or the thread goes on with pid, name and
  -- the slave's semaphore unchanged. Then an unconnected slave that acknowledged CONNECT_SLAVE or
  -- CHANGE_SLAVE_NAME is connected, with the master's request semaphore at 1, if its name is not taken,
  -- and otherwise stays unconnected with that semaphore at 0 for a CHANGE_SLAVE_NAME request that was
  -- signalled to it; after any other answer the connection is as before and the semaphore at 1.
  pub handle_slave_response-Replied : Returns (Replied must l) (handle_slave_response os must l)
  unfolding handle_slave_response
  handle_slave_response-Replied = elim (Bool-cases l.seg.is_connected) [
    | inl c ↦ simp c (connected-Replied l.seg.req_m_to_s l.seg.res_s_to_m c refl refl)
    | inr n ↦ simp n (unconnected-Replied l.seg.req_m_to_s l.seg.res_s_to_m n refl refl)
  ]
