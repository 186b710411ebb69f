-- ===== src/Master/Request/Parameters.antt =====
-- What the master does with the parameters of one signal of a slave.
use real_time_cyclic.Prelude.{ℕ, ◌≡◌, Bool, true, false, List, ◌∷◌, arith, [], suc, if◌then◌else◌}
use real_time_cyclic.Common.{Request, signal_master_parameter}
use real_time_cyclic.Os.{Os, Ensures}
use real_time_cyclic.Master.Link.{Link, LogEntry, missing_bool}
use real_time_cyclic.Master.Send.{send_slave_ack_response}
use real_time_cyclic.Master.Request.{
  take_string_parameter, take_int_parameter, take_bool_parameter, take_parameters,
  handle_slave_request, dispatch_slave_request,
}
use real_time_cyclic.Master.Reply.Connection.{SameOwner}

-- Owner, connection, semaphores and the master's request stay.
abbrev pub Undisturbed : Link → Link → Type 0
Undisturbed l l' =
    SameOwner l.seg l'.seg
    × (l'.seg.is_connected ≡ l.seg.is_connected)
    × (l'.seg.sem_s_to_m_request ≡ l.seg.sem_s_to_m_request)
    × (l'.seg.sem_m_to_s_request ≡ l.seg.sem_m_to_s_request)
    × (l'.seg.req_m_to_s ≡ l.seg.req_m_to_s)

take_string-Undisturbed : (l : Link) → Ensures (Undisturbed l) (take_string_parameter l)
unfolding take_string_parameter
take_string-Undisturbed l = ground arith

take_int-Undisturbed : (l : Link) → Ensures (Undisturbed l) (take_int_parameter l)
unfolding take_int_parameter
take_int-Undisturbed l = ground arith

take_bool-Undisturbed : (l : Link) → Ensures (Undisturbed l) (take_bool_parameter l)
unfolding take_bool_parameter
take_bool-Undisturbed l = ground arith

take_parameters-Undisturbed : (os : Os) (l : Link) → Ensures (Undisturbed l) (take_parameters os l)
unfolding take_parameters take_string_parameter take_int_parameter take_bool_parameter
    send_slave_ack_response
take_parameters-Undisturbed os l = ground arith

dispatch-Undisturbed :
    (os : Os) (l : Link) (req : Request) → Ensures (Undisturbed l) (dispatch_slave_request os req l)
unfolding dispatch_slave_request
dispatch-Undisturbed os l signal_master_parameter = take_parameters-Undisturbed os l
dispatch-Undisturbed os l _ = ground arith

pub handle_slave_request-Undisturbed :
    (os : Os) (l : Link) → Ensures (Undisturbed l) (handle_slave_request os l)
unfolding handle_slave_request
handle_slave_request-Undisturbed os l = ground (arith, dispatch-Undisturbed os l l.seg.req_s_to_m)

-- How many entries say that a requested bool parameter did not arrive.
abbrev is_missing_bool : LogEntry → Bool
is_missing_bool (missing_bool pid) = true
is_missing_bool _ = false

pub bool_misses : List LogEntry → ℕ
bool_misses [] = 0
bool_misses (e ∷ es) = if is_missing_bool e then suc (bool_misses es) else bool_misses es

parameters-bool_misses :
    (os : Os) (l : Link)
    → Ensures (λ l'. bool_misses l'.log ≡ bool_misses l.log) (take_parameters os l)
unfolding bool_misses take_parameters take_string_parameter take_int_parameter take_bool_parameter
    send_slave_ack_response
parameters-bool_misses os l = ground arith

dispatch-bool_misses :
    (os : Os) (l : Link) (req : Request)
    → Ensures (λ l'. bool_misses l'.log ≡ bool_misses l.log) (dispatch_slave_request os req l)
unfolding dispatch_slave_request
dispatch-bool_misses os l signal_master_parameter = parameters-bool_misses os l
dispatch-bool_misses os l _ = unfold bool_misses in ground arith

-- Whatever the slave sent or left out, no signal of a slave makes the master log that a requested
-- bool parameter did not arrive: a `bool` is promoted to an int that is not -1.
pub missing_bool_undetected :
    (os : Os) (l : Link)
    → Ensures (λ l'. bool_misses l'.log ≡ bool_misses l.log) (handle_slave_request os l)
unfolding handle_slave_request
missing_bool_undetected os l = ground (arith, dispatch-bool_misses os l l.seg.req_s_to_m)
