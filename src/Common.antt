-- ===== src/Common.antt =====
-- src/common.h and src/control.h: the data in the two shared memory segments.
pub mod Params
pub mod Text
use real_time_cyclic.Prelude.{ℕ, ◌-◌, ◌%◌, ℤ, pos, negsuc, Bool, false, List, replicate}

abbrev pub slave_name_size : ℕ
slave_name_size = 128

abbrev pub max_slaves : ℕ
max_slaves = 32

-- `int` results of the functions that can fail: RTC_SUCCESS and RTC_ERROR.
pub data Ret : Type 0 where
  rtc_success rtc_error : Ret

abbrev pub no_pid : ℤ
no_pid = negsuc 0

abbrev pub string_size : ℕ
string_size = 1024

-- INT_VALUE_UNDEFINED is -1. BOOL_VALUE_UNDEFINED is the int -1, too; what a `bool`, which is a
-- __uint8_t, holds after it is assigned -1 is 255.
abbrev pub int_value_undefined : ℤ
int_value_undefined = negsuc 0

abbrev pub bool_value_undefined : ℤ
bool_value_undefined = negsuc 0

-- Conversion of an int to __uint8_t, and the promotion back.
abbrev pub to_u8 : ℤ → ℕ
to_u8 (pos n) = n % 256
to_u8 (negsuc n) = 255 - n % 256

abbrev pub error_not_set_communication_cycle : ℤ
error_not_set_communication_cycle = negsuc 0

abbrev pub wait_timeout_seconds : ℕ
wait_timeout_seconds = 10

abbrev pub shmseg_error_size : ℕ
shmseg_error_size = 20

-- The enumerators in order; `other` is an int that is no enumerator, which the configurator's
-- user can type in.
pub data Request : Type 0 where
  start_master stop_master create_slave delete_slave connect_slave disconnect_slave : Request
  start_slave_cycle stop_slave_cycle print_slave_data print_log_data automatic_test : Request
  change_slave_name signal_master_parameter request_size : Request
  other : ℤ → Request

pub data Response : Type 0 where
  nack ack response_size : Response

-- The texts that `set_error` of slave.h formats into `error_string`.
pub data SlaveError : Type 0 where
  exceeded_cycle : ℤ → SlaveError  -- by so many microseconds
  usleep_failed sem_post_failed master_failed_to_respond name_index_overflow : SlaveError
  already_started already_stopped allow_post_failed unrecognized_request : SlaveError

-- `empty_error` is an entry that is all zeros.
pub data ErrorString : Type 0 where
  empty_error : ErrorString
  error_string : SlaveError → ErrorString

-- `shmseg_t`. A semaphore is its value. `name` and the strings are whole buffers of bytes.
pub record Shmseg : Type 0 where
  pub name : List ℕ
  pub req_s_to_m : Request
  pub res_s_to_m : Response
  pub available_parameters : ℕ
  pub pid : ℤ
  pub req_m_to_s : Request
  pub res_m_to_s : Response
  pub is_connected : Bool
  pub last_known_string_value : List ℕ
  pub last_known_int_value : ℤ
  pub last_known_bool_value : ℕ
  pub requested_parameters : ℕ
  pub communication_cycle_us : ℤ
  pub sem_s_to_m_request : ℕ
  pub sem_m_to_s_request : ℕ
  pub cycle_started : Bool
  pub shmseg_error : List ErrorString
  pub shmseg_error_current_size : ℕ
  pub string_value : List ℕ
  pub int_value : ℤ
  pub bool_value : ℕ

-- `memset(seg, 0, sizeof(shmseg_t))`.
unfoldable pub zeroed_shmseg : Shmseg
zeroed_shmseg = record {
  name = replicate slave_name_size 0;
  req_s_to_m = start_master;
  res_s_to_m = nack;
  available_parameters = 0;
  pid = pos 0;
  req_m_to_s = start_master;
  res_m_to_s = nack;
  is_connected = false;
  last_known_string_value = replicate string_size 0;
  last_known_int_value = pos 0;
  last_known_bool_value = 0;
  requested_parameters = 0;
  communication_cycle_us = pos 0;
  sem_s_to_m_request = 0;
  sem_m_to_s_request = 0;
  cycle_started = false;
  shmseg_error = replicate shmseg_error_size empty_error;
  shmseg_error_current_size = 0;
  string_value = replicate string_size 0;
  int_value = pos 0;
  bool_value = 0;
}

-- `shm_t`.
pub record Shm : Type 0 where
  pub slave_shmseg : List Shmseg
  pub master_pid : ℤ

-- `control_shm_t`.
pub record ControlShm : Type 0 where
  pub response : Response
  pub request : Request
  pub configurator_pid : ℤ
  pub affected_slave_pid : ℤ

-- The signals that the three programs send each other.
pub data Signal : Type 0 where
  sigusr1 sigusr2 sigint : Signal
