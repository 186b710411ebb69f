-- ===== src/Master/Send/Requests.antt =====
-- What the master's requests do to the request semaphore, and what a failed signal leaves behind.
use real_time_cyclic.Prelude.{ℕ, suc, ◌≡◌, refl, ◌≢◌, ◌⊎◌, false, ◌∷◌, arith}
use real_time_cyclic.Common.{
  Ret, rtc_success, no_pid, Request, connect_slave, disconnect_slave, start_slave_cycle,
  stop_slave_cycle, change_slave_name, sigusr1, error_not_set_communication_cycle,
}
use real_time_cyclic.Os.{Os, Outcome, done, blocked, Ensures, m_to_s_request}
use real_time_cyclic.Master.Link.{Link}
use real_time_cyclic.Master.Send.{
  send_change_name_slave_request, send_connect_slave_request, send_disconnect_slave_request,
  send_start_cycle_slave_request, send_stop_cycle_slave_request,
}
use real_time_cyclic.Master.Reply.Connection.{SameOwner}

-- A request leaves the owner and the connection as they are, or frees the segment.
abbrev pub OwnedOrFree : Link → Link → Type 0
OwnedOrFree l l' =
    (SameOwner l.seg l'.seg × (l'.seg.is_connected ≡ l.seg.is_connected))
    ⊎ ((l'.seg.pid ≡ no_pid) × (l'.seg.is_connected ≡ false))

pub send_connect-OwnedOrFree :
    (os : Os) (l : Link) → Ensures (OwnedOrFree l) (send_connect_slave_request os l)
unfolding send_connect_slave_request
send_connect-OwnedOrFree os l = ground arith

-- The five requests that go to a slave that is attached, each with its number.
pub data Sending : Type 0 where
  change_name connect disconnect start_cycle stop_cycle : Sending

unfoldable pub send : Os → Sending → Link → Outcome Link Ret
send os change_name = send_change_name_slave_request os
send os connect = send_connect_slave_request os
send os disconnect = send_disconnect_slave_request os
send os start_cycle = send_start_cycle_slave_request os
send os stop_cycle = send_stop_cycle_slave_request os

-- Whatever calls fail, a request keeps the owner and the connection, or frees the segment.
pub send-OwnedOrFree : (os : Os) (r : Sending) (l : Link) → Ensures (OwnedOrFree l) (send os r l)
unfolding send send_change_name_slave_request send_connect_slave_request
    send_disconnect_slave_request send_start_cycle_slave_request send_stop_cycle_slave_request
send-OwnedOrFree os change_name l = ground arith
send-OwnedOrFree os connect l = ground arith
send-OwnedOrFree os disconnect l = ground arith
send-OwnedOrFree os start_cycle l = ground arith
send-OwnedOrFree os stop_cycle l = ground arith

abbrev pub request_of : Sending → Request
request_of change_name = change_slave_name
request_of connect = connect_slave
request_of disconnect = disconnect_slave
request_of start_cycle = start_slave_cycle
request_of stop_cycle = stop_slave_cycle

-- With the request semaphore free, no failing call, and a cycle time set where the cycle is started, each of the five functions
-- takes the semaphore, writes its own request and sends SIGUSR1 to the owner of the segment, and
-- changes nothing else.
pub send_ready :
    (os : Os) (r : Sending) (l : Link) (v : ℕ)
    → l.seg.sem_m_to_s_request ≡ suc v
    → (r ≡ start_cycle → l.seg.communication_cycle_us ≢ error_not_set_communication_cycle)
    → os.sem_wait_fails m_to_s_request ≡ false
    → os.kill_fails l.seg.pid sigusr1 ≡ false
    → send os r l
      ≡ done rtc_success (record l {
        seg = record (l.seg) { sem_m_to_s_request = v; req_m_to_s = request_of r };
        sent = (l.seg.pid, sigusr1) ∷ l.sent;
      })
unfolding send send_change_name_slave_request send_connect_slave_request
    send_disconnect_slave_request send_start_cycle_slave_request send_stop_cycle_slave_request
send_ready os change_name l v sem cycle wait kill = ground arith
send_ready os connect l v sem cycle wait kill = ground arith
send_ready os disconnect l v sem cycle wait kill = ground arith
send_ready os start_cycle l v sem cycle wait kill = ground (arith, cycle refl)
send_ready os stop_cycle l v sem cycle wait kill = ground arith

-- While a request is outstanding, the next one to the same slave sleeps, and has changed nothing.
pub send_busy :
    (os : Os) (r : Sending) (l : Link)
    → l.seg.sem_m_to_s_request ≡ 0
    → (r ≡ start_cycle → l.seg.communication_cycle_us ≢ error_not_set_communication_cycle)
    → os.sem_wait_fails m_to_s_request ≡ false
    → send os r l ≡ blocked l
unfolding send send_change_name_slave_request send_connect_slave_request
    send_disconnect_slave_request send_start_cycle_slave_request send_stop_cycle_slave_request
send_busy os change_name l sem cycle wait = ground arith
send_busy os connect l sem cycle wait = ground arith
send_busy os disconnect l sem cycle wait = ground arith
send_busy os start_cycle l sem cycle wait = ground (arith, cycle refl)
send_busy os stop_cycle l sem cycle wait = ground arith
