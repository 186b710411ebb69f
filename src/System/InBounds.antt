-- ===== src/System/InBounds.antt =====
-- The arrays of a segment and what is in them, through the handlers of src/master.c.

pub mod Slaves
pub mod Safety
use real_time_cyclic.Prelude.{
  ℕ, zero, suc, ◌+◌, ◌≤◌, ◌<◌, ◌≡◌, ◌≢◌, refl, false, true, Bool, Bool-cases, inl, inr, List, ◌∷◌,
  length, length-set, set, get_or, replicate, none, some, arith, ltb,
}
use real_time_cyclic.Common.{
  Shmseg, slave_name_size, string_size, shmseg_error_size, empty_error, Request, connect_slave,
  disconnect_slave, change_slave_name, start_slave_cycle, stop_slave_cycle, signal_master_parameter,
  Response, ack, nack, response_size,
}
use real_time_cyclic.Common.Params.{string_parameter_bit, int_parameter_bit, bool_parameter_bit}
use real_time_cyclic.Common.Text.{c_string, strcpy}
use real_time_cyclic.Common.Text.Laws.{c_string-IsText, strcpy_fits}
use real_time_cyclic.Common.Text.Buffers.{
  IsBuffer, replicate-IsBuffer, length-c_string-lt, strcpy-IsBuffer,
}
use real_time_cyclic.Os.{Os, M, Survives, Survives-bind, ◌>>◌, ◌>>=◌}
use real_time_cyclic.Master.Link.{Link, from_slave}
use real_time_cyclic.Master.Send.{
  send_connect_slave_request, send_disconnect_slave_request, send_start_cycle_slave_request,
  send_stop_cycle_slave_request, send_slave_ack_response,
}
use real_time_cyclic.Master.Send.Requests.{send, disconnect, start_cycle, stop_cycle}
use real_time_cyclic.Master.Request.{
  handle_slave_request, handle_slave_request_errors, consume_errors, dispatch_slave_request,
  if_requested, take_parameters, take_string_parameter, take_int_parameter, take_bool_parameter,
}
use real_time_cyclic.Master.Reply.{handle_slave_response, connected_response, unconnected_response}

-- Strings end inside their buffers, and the number of errors is within the array.
pub record InBounds (g : Shmseg) : Type 0 where
  pub name_ends : IsBuffer 127 g.name
  pub string_ends : IsBuffer 1023 g.string_value
  pub known_ends : IsBuffer 1023 g.last_known_string_value
  pub errors_full : length g.shmseg_error ≡ shmseg_error_size
  pub errors_counted : g.shmseg_error_current_size ≤ shmseg_error_size

abbrev pub LinkInBounds : Link → Type 0
LinkInBounds l = InBounds l.seg

module _ (os : Os) (must : Bool) (l : Link) (h : InBounds l.seg) where
  connected-InBounds :
      (req : Request) (res : Response)
      → Survives LinkInBounds (connected_response os must req res l)
  unfolding connected_response
  connected-InBounds disconnect_slave nack = ground arith
  connected-InBounds disconnect_slave ack = ground arith
  connected-InBounds disconnect_slave response_size = ground arith
  connected-InBounds start_slave_cycle nack = ground arith
  connected-InBounds start_slave_cycle ack = ground arith
  connected-InBounds start_slave_cycle response_size = ground arith
  connected-InBounds stop_slave_cycle nack = ground arith
  connected-InBounds stop_slave_cycle ack = ground arith
  connected-InBounds stop_slave_cycle response_size = ground arith
  connected-InBounds _ res = ground arith

  unconnected-InBounds :
      (req : Request) (res : Response)
      → Survives LinkInBounds (unconnected_response os must req res l)
  unfolding unconnected_response
  unconnected-InBounds connect_slave nack = ground arith
  unconnected-InBounds connect_slave ack = ground arith
  unconnected-InBounds connect_slave response_size = ground arith
  unconnected-InBounds change_slave_name nack = ground arith
  unconnected-InBounds change_slave_name ack = ground arith
  unconnected-InBounds change_slave_name response_size = ground arith
  unconnected-InBounds _ res = ground arith

  pub handle_slave_response-InBounds : Survives LinkInBounds (handle_slave_response os must l)
  unfolding handle_slave_response
  handle_slave_response-InBounds = elim (Bool-cases l.seg.is_connected) [
    | inl c ↦ simp c (connected-InBounds l.seg.req_m_to_s l.seg.res_s_to_m)
    | inr n ↦ simp n (unconnected-InBounds l.seg.req_m_to_s l.seg.res_s_to_m)
  ]

take_string-InBounds : (l : Link) → InBounds l.seg → Survives LinkInBounds (take_string_parameter l)
unfolding take_string_parameter
take_string-InBounds l h =
    let room : length (c_string l.seg.string_value) < length l.seg.last_known_string_value =
      omega (arith, length-c_string-lt 1023 l.seg.string_value h.string_ends, h.known_ends) in
    let (known, copied, same, size) =
      strcpy_fits l.seg.last_known_string_value (c_string l.seg.string_value)
        (c_string-IsText l.seg.string_value) room in
    let ends : IsBuffer 1023 known =
      strcpy-IsBuffer 1023 l.seg.last_known_string_value (c_string l.seg.string_value) copied
        h.known_ends in
    ground (arith, copied, ends, replicate-IsBuffer 1023)

take_int-InBounds : (l : Link) → InBounds l.seg → Survives LinkInBounds (take_int_parameter l)
unfolding take_int_parameter
take_int-InBounds l h = ground arith

take_bool-InBounds : (l : Link) → InBounds l.seg → Survives LinkInBounds (take_bool_parameter l)
unfolding take_bool_parameter
take_bool-InBounds l h = ground arith

if_requested-InBounds :
    (bit : ℕ) (m : M Link (Unit {0})) (l : Link)
    → InBounds l.seg
    → Survives LinkInBounds (m l)
    → Survives LinkInBounds (if_requested bit m l)
if_requested-InBounds bit m l h k = ground arith

acknowledge-InBounds :
    (os : Os) (l : Link) → InBounds l.seg → Survives LinkInBounds (send_slave_ack_response os l)
unfolding send_slave_ack_response
acknowledge-InBounds os l h = ground arith

take_parameters-InBounds :
    (os : Os) (l : Link) → InBounds l.seg → Survives LinkInBounds (take_parameters os l)
unfolding take_parameters
take_parameters-InBounds os l h =
    Survives-bind LinkInBounds LinkInBounds
      (if_requested string_parameter_bit take_string_parameter) _ l (λ t k. k)
      (λ _ t k.
        Survives-bind LinkInBounds LinkInBounds (if_requested int_parameter_bit take_int_parameter)
          _ t (λ u j. j)
          (λ _ u j.
            Survives-bind LinkInBounds LinkInBounds
              (if_requested bool_parameter_bit take_bool_parameter)
              (λ _. send_slave_ack_response os) u (λ v i. i) (λ _ v i. acknowledge-InBounds os v i)
              (if_requested-InBounds bool_parameter_bit take_bool_parameter u j
                (take_bool-InBounds u j)))
          (if_requested-InBounds int_parameter_bit take_int_parameter t k (take_int-InBounds t k)))
      (if_requested-InBounds string_parameter_bit take_string_parameter l h
        (take_string-InBounds l h))

dispatch-InBounds :
    (os : Os) (l : Link) (req : Request)
    → InBounds l.seg
    → Survives LinkInBounds (dispatch_slave_request os req l)
unfolding dispatch_slave_request
dispatch-InBounds os l signal_master_parameter h = take_parameters-InBounds os l h
dispatch-InBounds os l _ h = ground arith

pub handle_slave_request-InBounds :
    (os : Os) (l : Link) → InBounds l.seg → Survives LinkInBounds (handle_slave_request os l)
unfolding handle_slave_request
handle_slave_request-InBounds os l h = ground (arith, dispatch-InBounds os l l.seg.req_s_to_m h)

consume_errors-InBounds :
    (rounds i : ℕ) (l : Link)
    → InBounds l.seg
    → rounds + i ≤ shmseg_error_size
    → Survives LinkInBounds (consume_errors rounds i l)
unfolding consume_errors
consume_errors-InBounds zero i l h le = h
consume_errors-InBounds (suc rounds) i l h le =
    let l' : Link = record l {
      seg = record (l.seg) { shmseg_error = set l.seg.shmseg_error i empty_error };
      log = from_slave l.seg.pid (get_or l.seg.shmseg_error i empty_error) ∷ l.log;
    } in
    ground (
      arith,
      length-set l.seg.shmseg_error i empty_error,
      consume_errors-InBounds rounds (i + 1) l',
    )

pub handle_slave_request_errors-InBounds :
    (l : Link) → InBounds l.seg → Survives LinkInBounds (handle_slave_request_errors l)
unfolding handle_slave_request_errors
handle_slave_request_errors-InBounds l h =
    Survives-bind LinkInBounds LinkInBounds (consume_errors l.seg.shmseg_error_current_size 0) _ l
      (λ t k. k) (λ _ t k. ground arith)
      (consume_errors-InBounds l.seg.shmseg_error_current_size 0 l h
        (omega (arith, h.errors_counted)))

pub send_connect-InBounds :
    (os : Os) (l : Link) → InBounds l.seg → Survives LinkInBounds (send_connect_slave_request os l)
unfolding send_connect_slave_request
send_connect-InBounds os l h = ground arith

pub send_disconnect-InBounds :
    (os : Os) (l : Link) → InBounds l.seg → Survives LinkInBounds (send os disconnect l)
unfolding send send_disconnect_slave_request
send_disconnect-InBounds os l h = ground arith

pub send_start_cycle-InBounds :
    (os : Os) (l : Link) → InBounds l.seg → Survives LinkInBounds (send os start_cycle l)
unfolding send send_start_cycle_slave_request
send_start_cycle-InBounds os l h = ground arith

pub send_stop_cycle-InBounds :
    (os : Os) (l : Link) → InBounds l.seg → Survives LinkInBounds (send os stop_cycle l)
unfolding send send_stop_cycle_slave_request
send_stop_cycle-InBounds os l h = ground arith
