-- ===== src/Configurator/Cycle.antt =====
-- src/configurator.c: START_SLAVE_CYCLE, the case of the menu that asks for parameters and a time.
pub mod Requests
pub mod Bits
use real_time_cyclic.Prelude.{
  ℕ, ◌*◌, ◌/◌, ◌==◌, ltb, ℤ, pos, negsuc, Bool, true, false, ◌||◌, List, Option, none, some, get_or,
  set, if◌then◌else◌,
}
use real_time_cyclic.Common.{Shm, Shmseg, zeroed_shmseg, Ret, rtc_success, rtc_error, Response}
use real_time_cyclic.Common.Params.{
  has_bit, add_bit, string_parameter_bit, int_parameter_bit, bool_parameter_bit,
}
use real_time_cyclic.Table.{Slot, at, no_idx, out_of_bounds, get_assigned_idx}
use real_time_cyclic.Os.{Os, M, ◌>>=◌, ◌>>◌, pure, get, modify, crash, given◌run◌otherwise◌}
use real_time_cyclic.Configurator.Input.{
  Line, read_characters, buffer_of, scan_char, scan_long, long_max, read_pid,
}
use real_time_cyclic.Configurator.{
  Config, send_start_cycle_slave_request, wait_start_slave_cycle_response,
}
use real_time_cyclic.Configurator.Menu.{idle_pids, with_valid, with_segments}

-- What the user types after the pid: an answer for each parameter and the time. `stale` is what the
-- variable `parameter_response` holds before it is read, for each of the three questions.
pub record Answers : Type 0 where
  pub string_line : Line
  pub int_line : Line
  pub bool_line : Line
  pub interval_line : Line
  pub string_stale : ℕ
  pub int_stale : ℕ
  pub bool_stale : ℕ

unfoldable pub get_assigned_shmseg_idx : ℤ → List Shmseg → Slot
get_assigned_shmseg_idx pid segments = get_assigned_idx (λ g. g.pid) zeroed_shmseg pid segments

-- `self.shmp->slave_shmseg[shmsegIdx]`, at an index that was looked up.
abbrev pub read_at : {A : Type 0} → Slot → Option Shm → (Shmseg → M Config A) → M Config A
read_at idx none k = crash
read_at (at i) (some shm) k = k (get_or shm.slave_shmseg i zeroed_shmseg)
read_at no_idx (some shm) k = crash
read_at out_of_bounds (some shm) k = crash

unfoldable pub read_segment : {A : Type 0} → Slot → (Shmseg → M Config A) → M Config A
read_segment idx k = do c ← get; read_at idx c.shmp k

abbrev pub edit_segment : ℕ → (Shmseg → Shmseg) → Shm → Shm
edit_segment i f shm = record shm {
  slave_shmseg = set shm.slave_shmseg i (f (get_or shm.slave_shmseg i zeroed_shmseg));
}

abbrev pub write_at : Slot → Option Shm → (Shmseg → Shmseg) → M Config (Unit {0})
write_at idx none f = crash
write_at (at i) (some shm) f = modify λ c. record c { shmp = some (edit_segment i f shm) }
write_at no_idx (some shm) f = crash
write_at out_of_bounds (some shm) f = crash

unfoldable pub write_segment : Slot → (Shmseg → Shmseg) → M Config (Unit {0})
write_segment idx f = do c ← get; write_at idx c.shmp f

-- The answer 'y' or 'Y'.
unfoldable pub says_yes : Line → ℕ → Bool
says_yes line stale =
    scan_char (buffer_of line) stale == b'y' || scan_char (buffer_of line) stale == b'Y'

abbrev pub request_parameter : ℕ → Slot → M Config (Unit {0})
request_parameter bit idx =
    write_segment idx (λ g. record g { requested_parameters = add_bit g.requested_parameters bit })

abbrev pub take_answer : Line → ℕ → ℕ → Slot → M Config (Unit {0})
take_answer line stale bit idx =
    given says_yes line stale run request_parameter bit idx otherwise pure tt

-- One of the three questions; with `false` the case is left.
unfoldable pub ask_parameter : Line → ℕ → ℕ → Slot → M Config Bool
ask_parameter line stale bit idx = read_segment idx λ g.
    given has_bit g.available_parameters bit
    run (given ltb (read_characters line) 1
        run pure false
        otherwise (do take_answer line stale bit idx; pure true))
    otherwise pure true

-- The time in milliseconds, if it is a number above 0.
unfoldable pub positive : Option ℤ → Option ℕ
positive none = none
positive (some (pos n)) = if n == 0 then none else some n
positive (some (negsuc n)) = none

abbrev pub write_cycle : ℕ → Slot → M Config (Unit {0})
write_cycle ms idx = write_segment idx (λ g. record g { communication_cycle_us = pos (ms * 1000) })

-- `req_cycle_interval_ms * 1000`, in a long; an overflow has no defined result.
unfoldable pub set_interval : Option ℕ → Slot → M Config Bool
set_interval none idx = pure false
set_interval (some ms) idx =
    given ltb (long_max / 1000) ms run crash otherwise (do write_cycle ms idx; pure true)

unfoldable pub ask_interval : Line → Slot → M Config Bool
unfolding positive set_interval
ask_interval line idx = set_interval (positive (scan_long (buffer_of line))) idx

-- A statement that may leave the case, and what follows it.
abbrev pub unless_left : Bool → M Config Bool → M Config Bool
unless_left true k = k
unless_left false k = pure false

module _ (a : Answers) (idx : Slot) where
  abbrev pub ask_string : M Config Bool
  ask_string = ask_parameter a.string_line a.string_stale string_parameter_bit idx

  abbrev pub ask_int : M Config Bool
  ask_int = ask_parameter a.int_line a.int_stale int_parameter_bit idx

  abbrev pub ask_bool : M Config Bool
  ask_bool = ask_parameter a.bool_line a.bool_stale bool_parameter_bit idx

  abbrev pub after_bool : Bool → M Config Bool
  after_bool go_on = unless_left go_on (ask_interval a.interval_line idx)

  abbrev pub after_int : Bool → M Config Bool
  after_int go_on = unless_left go_on (do answered ← ask_bool; after_bool answered)

  abbrev pub after_string : Bool → M Config Bool
  after_string go_on = unless_left go_on (do answered ← ask_int; after_int answered)

  unfoldable pub ask_all : M Config Bool
  ask_all = do answered ← ask_string; after_string answered

module _ (os : Os) where
  abbrev pub after_start : Option Response → Ret → M Config (Unit {0})
  after_start r rtc_success = wait_start_slave_cycle_response r
  after_start r rtc_error = pure tt

  abbrev pub start_asked : ℤ → Option Response → Bool → M Config (Unit {0})
  start_asked pid r true = do ret ← send_start_cycle_slave_request os pid; after_start r ret
  start_asked pid r false = pure tt

  abbrev pub start_valid : Answers → Option Response → List Shmseg → ℤ → M Config (Unit {0})
  start_valid a r segments pid = do
    asked ← ask_all a (get_assigned_shmseg_idx pid segments)
    start_asked pid r asked

  abbrev pub start_idle : Line → Answers → Option Response → List Shmseg → M Config (Unit {0})
  start_idle line a r segments =
      with_valid (read_pid line) (idle_pids segments) (start_valid a r segments)

  unfoldable pub start_slave_cycle_case : Line → Answers → Option Response → M Config (Unit {0})
  start_slave_cycle_case line a r = with_segments (start_idle line a r)
