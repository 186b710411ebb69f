-- ===== src/Master/Request.antt =====
-- src/master.c: requests that the slave sends, and the errors that come with its signals.
pub mod Parameters
pub mod Errors
use real_time_cyclic.Prelude.{
  ℕ, zero, suc, ◌+◌, ◌%◌, ◌==◌, ltb, ℤ, pos, negsuc, ◌==ℤ◌, Bool, true, not, List, replicate,
  get_or, set,
}
use real_time_cyclic.Common.{
  Shmseg, string_size, shmseg_error_size, int_value_undefined, bool_value_undefined, to_u8,
  empty_error, Request, signal_master_parameter,
}
use real_time_cyclic.Common.Params.{
  has_bit, string_parameter_bit, int_parameter_bit, bool_parameter_bit,
}
use real_time_cyclic.Common.Text.{c_string, strcpy}
use real_time_cyclic.Os.{Os, M, ◌>>=◌, ◌>>◌, pure, get, crash, or_crash, when, given◌run◌otherwise◌}
use real_time_cyclic.Master.Link.{
  Link, log_error, update_seg, from_slave, missing_string, missing_int, missing_bool,
  unrecognized_slave_request,
}
use real_time_cyclic.Master.Send.{send_slave_ack_response}

-- The value is an int that is returned as a `bool`, a __uint8_t.
unfoldable pub slave_request_has_errors : Shmseg → Bool
slave_request_has_errors g = not (g.shmseg_error_current_size % 256 == 0)

-- The rounds of the loop that are left, and the index of the next one.
unfoldable pub consume_errors : ℕ → ℕ → M Link (Unit {0})
consume_errors zero i = pure tt
consume_errors (suc rounds) i = do
  l ← get
  given ltb i shmseg_error_size
      run (do
        log_error (from_slave l.seg.pid (get_or l.seg.shmseg_error i empty_error))
        update_seg (λ g. record g { shmseg_error = set g.shmseg_error i empty_error })
        consume_errors rounds (i + 1))
      otherwise crash

unfoldable pub handle_slave_request_errors : M Link (Unit {0})
handle_slave_request_errors = do
  l ← get
  consume_errors l.seg.shmseg_error_current_size 0
  update_seg (λ g. record g { shmseg_error_current_size = 0 })

-- The three parts of the case SIGNAL_MASTER_PARAMETER.
unfoldable pub take_string_parameter : M Link (Unit {0})
take_string_parameter = do
  l ← get
  given get_or l.seg.string_value 0 0 == 0 run log_error (missing_string l.seg.pid) otherwise (do
    known ← or_crash (strcpy l.seg.last_known_string_value (c_string l.seg.string_value)) pure
    update_seg
        (λ g. record g { last_known_string_value = known; string_value = replicate string_size 0 }))

unfoldable pub take_int_parameter : M Link (Unit {0})
take_int_parameter = do
  l ← get
  given l.seg.int_value ==ℤ int_value_undefined
      run log_error (missing_int l.seg.pid)
      otherwise update_seg
          (λ g. record g { last_known_int_value = g.int_value; int_value = int_value_undefined })

unfoldable pub take_bool_parameter : M Link (Unit {0})
take_bool_parameter = do
  l ← get
  given pos l.seg.bool_value ==ℤ bool_value_undefined
      run log_error (missing_bool l.seg.pid)
      otherwise update_seg (λ g. record g {
        last_known_bool_value = g.bool_value;
        bool_value = to_u8 bool_value_undefined;
      })

abbrev pub if_requested : ℕ → M Link (Unit {0}) → M Link (Unit {0})
if_requested bit m = do l ← get; when (has_bit l.seg.requested_parameters bit) m

-- The case SIGNAL_MASTER_PARAMETER.
unfoldable pub take_parameters : Os → M Link (Unit {0})
take_parameters os = do
  if_requested string_parameter_bit take_string_parameter
  if_requested int_parameter_bit take_int_parameter
  if_requested bool_parameter_bit take_bool_parameter
  send_slave_ack_response os

unfoldable pub dispatch_slave_request : Os → Request → M Link (Unit {0})
dispatch_slave_request os signal_master_parameter = take_parameters os
dispatch_slave_request os _ = do l ← get; log_error (unrecognized_slave_request l.seg.pid)

unfoldable pub handle_slave_request : Os → M Link (Unit {0})
handle_slave_request os = do
  l ← get
  given not l.seg.is_connected run pure tt otherwise dispatch_slave_request os l.seg.req_s_to_m
