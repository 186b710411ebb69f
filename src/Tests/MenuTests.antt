-- ===== src/Tests/MenuTests.antt =====
-- The cases of the configurator's menu on concrete states: no slave yet, and the slave 77 connected.
use real_time_cyclic.Prelude.{
  ◌+◌, ◌≡◌, refl, arith, true, List, [], ◌∷◌, none, some, pos, set, get_or, replicate, ◌==◌, ◌||◌,
  ◌&&◌, ◌++◌,
}
use real_time_cyclic.Os.{reliable, Returns, done, fault}
use real_time_cyclic.Configurator.Registry.{fresh-IsSound}
use real_time_cyclic.Configurator.Menu.{name_of, parameters_of, is_valid_pid, idle_pids}
use real_time_cyclic.Common.{Shm, Shmseg, zeroed_shmseg, no_pid, max_slaves, ack, sigusr2}
use real_time_cyclic.Common.Params.{
  IsMask, has_bit, string_parameter_bit, int_parameter_bit, bool_parameter_bit,
}
use real_time_cyclic.Common.Text.{c_string, print_unsigned}
use real_time_cyclic.Table.{at, get_assigned_idx, probe_from, probe, first_idx}
use real_time_cyclic.Slave.Node.{Self}
use real_time_cyclic.Slave.Signals.{init_self}
use real_time_cyclic.Configurator.Input.{
  Line, read_characters, byte_at, read_pid, buffer_of, scan_long, scan_int, scan_word, word_of,
  skip_spaces, is_space, long_of_signed, long_of_digits, digits_of, is_digit, to_long, int_of_long,
  int_of_word,
}
use real_time_cyclic.Common.Text.Digits.{read_digits}
use real_time_cyclic.Configurator.{Config}
use real_time_cyclic.Configurator.Main.{fresh}
use real_time_cyclic.Configurator.Cycle.{
  Answers, ask_all, ask_interval, start_slave_cycle_case, get_assigned_shmseg_idx, positive,
}
use real_time_cyclic.Configurator.Cycle.Requests.{
  AllTyped, with_segment, answered_all, wants, start_slave_cycle_case-requests,
  start_slave_cycle_case-refused,
}
use real_time_cyclic.Configurator.Cycle.Bits.{ask_all-Bits}
use real_time_cyclic.Configurator.Registry.Refine.{
  Op, registers, forgets, connects, run_ops, apply_all, registry, AllAllowed, apply, Represents,
  run_ops-Refines,
}
use real_time_cyclic.Configurator.Typed.{end_of_line, read_pid_round_trip}
use real_time_cyclic.Configurator.AutomaticTest.{TestInput, automatic_test_case}
use real_time_cyclic.Configurator.AutomaticTest.Overrun.{automatic_test_case-overrun}
use real_time_cyclic.Configurator.Arguments.{init_self-accepts}
use real_time_cyclic.Tests.ConfiguratorTests.{line_64, line_ab, all_yes}

abbrev pub empty : Config
empty = fresh (pos 50)

-- 64 and 32 start their searches at the same index.
abbrev uses : List Op
uses = registers 64 ∷ registers 32 ∷ connects 64 true ∷ forgets 64 ∷ []

uses_allowed : AllAllowed uses (registry empty)
unfolding apply get_assigned_idx probe_from probe first_idx
uses_allowed =
    ((omega arith, refl), ((omega arith, refl), ((λ e. ground arith), ((λ e. ground arith), tt))))

run_ops-Refines_example :
    Returns (λ _ d. Represents (apply_all uses (registry empty)) d) (run_ops uses empty)
run_ops-Refines_example = run_ops-Refines uses empty (fresh-IsSound (pos 50)) uses_allowed

abbrev pub segment_77 : Shmseg
segment_77 = record zeroed_shmseg {
  pid = pos 77;
  is_connected = true;
  available_parameters = 7;
  requested_parameters = 4;
}

abbrev pub segments : List Shmseg
segments = set (replicate max_slaves (record zeroed_shmseg { pid = no_pid })) 13 segment_77

abbrev pub attached : Shm
attached = record { slave_shmseg = segments; master_pid = pos 10 }

abbrev pub line_77 : Line
line_77 = some (b'7' ∷ b'7' ∷ 10 ∷ [])

all_yes_typed : AllTyped all_yes
all_yes_typed = ((λ e. ground (arith, e)), (λ e. ground (arith, e)), (λ e. ground (arith, e)))

line_77_read : read_pid line_77 ≡ some (pos 77)
unfolding read_pid read_characters byte_at buffer_of scan_int scan_long skip_spaces c_string
    is_space long_of_signed long_of_digits digits_of is_digit read_digits to_long int_of_long
    int_of_word
line_77_read = refl

idle_77 : is_valid_pid (pos 77) (idle_pids segments) ≡ true
unfolding is_valid_pid idle_pids zeroed_shmseg
idle_77 = refl

found_77 : get_assigned_shmseg_idx (pos 77) segments ≡ at 13
unfolding get_assigned_shmseg_idx get_assigned_idx probe_from probe first_idx
found_77 = refl

pub interval_64 : positive (scan_long (buffer_of line_64)) ≡ some 64
unfolding positive buffer_of scan_long skip_spaces c_string is_space long_of_signed long_of_digits
    digits_of is_digit read_digits to_long
interval_64 = refl

interval_ab : positive (scan_long (buffer_of line_ab)) ≡ none
unfolding positive buffer_of scan_long skip_spaces c_string is_space long_of_signed long_of_digits
    digits_of is_digit
interval_ab = refl

abbrev refused : Answers
refused = record all_yes { interval_line = line_ab }

start_slave_cycle_case-requests_example :
    start_slave_cycle_case reliable line_77 all_yes
      (some ack)
      (record empty { shmp = some attached })
    ≡ done tt
        (record (with_segment empty attached 13
          (record (answered_all all_yes (get_or segments 13 zeroed_shmseg)) {
            communication_cycle_us = pos 64000;
          })) {
            control = record (empty.control) { affected_slave_pid = pos 77; response = ack };
            sent = (empty.master_pid, sigusr2) ∷ [];
          })
start_slave_cycle_case-requests_example =
    start_slave_cycle_case-requests reliable line_77 all_yes (some ack) empty attached 13 (pos 77)
      (omega arith) all_yes_typed line_77_read idle_77 found_77 64 ack interval_64 (omega arith)
      refl refl

start_slave_cycle_case-refused_example :
    start_slave_cycle_case reliable line_77 refused
      (some ack)
      (record empty { shmp = some attached })
    ≡ done tt
        (with_segment empty attached 13 (answered_all refused (get_or segments 13 zeroed_shmseg)))
start_slave_cycle_case-refused_example =
    start_slave_cycle_case-refused reliable line_77 refused (some ack) empty attached 13 (pos 77)
      (omega arith) all_yes_typed line_77_read idle_77 found_77 interval_ab

ask_all-Bits_example :
    (after : Shmseg) × (ask_all all_yes (at 13) (with_segment empty attached 13 segment_77)
      ≡ ask_interval line_64 (at 13) (with_segment empty attached 13 after))
    × IsMask after.requested_parameters
    × (has_bit after.requested_parameters string_parameter_bit ≡ (
        has_bit 4 string_parameter_bit
        || (has_bit 7 string_parameter_bit && wants all_yes.string_line)))
    × (has_bit after.requested_parameters int_parameter_bit
        ≡ (has_bit 4 int_parameter_bit || (has_bit 7 int_parameter_bit && wants all_yes.int_line)))
    × (has_bit after.requested_parameters bool_parameter_bit ≡ (
        has_bit 4 bool_parameter_bit || (has_bit 7 bool_parameter_bit && wants all_yes.bool_line)))
ask_all-Bits_example =
    ask_all-Bits all_yes empty attached 13 segment_77 (omega arith) all_yes_typed (omega arith)

read_pid_round_trip_example : read_pid (some (print_unsigned 4711 ++ end_of_line)) ≡ some (pos 4711)
read_pid_round_trip_example = read_pid_round_trip 4711 (omega arith)

-- 33 slaves, with the pids from 100 on.
abbrev test_33 : TestInput
test_33 = record {
  line = some (b'3' ∷ b'3' ∷ 10 ∷ []);
  fork_pid = λ i. pos (100 + i);
  connect_response = λ i. none;
  start_response = λ i. none;
  others = λ s. s;
}

typed_33 : positive (scan_int (buffer_of test_33.line)) ≡ some 33
unfolding positive buffer_of scan_int scan_long skip_spaces c_string is_space long_of_signed
    long_of_digits digits_of is_digit read_digits to_long int_of_long int_of_word
typed_33 = refl

automatic_test_case-overrun_example : automatic_test_case reliable test_33 empty ≡ fault
automatic_test_case-overrun_example =
    automatic_test_case-overrun reliable test_33 (λ i. 100 + i) 33 empty (λ k. refl) refl typed_33
      (omega arith)

line_ab_name : name_of line_ab ≡ some (b'a' ∷ b'b' ∷ [])
unfolding name_of read_characters byte_at buffer_of scan_word word_of skip_spaces is_space c_string
line_ab_name = refl

init_self-accepts_example :
    (self : Self) × (init_self (b'a' ∷ b'b' ∷ []) (parameters_of line_64) ≡ some self)
    × (c_string self.name ≡ b'a' ∷ b'b' ∷ [])
    × IsMask self.available_parameters
    × (has_bit self.available_parameters string_parameter_bit ≡ (byte_at line_64 0 == b'1'))
    × (has_bit self.available_parameters int_parameter_bit ≡ (byte_at line_64 1 == b'1'))
    × (has_bit self.available_parameters bool_parameter_bit ≡ (byte_at line_64 2 == b'1'))
init_self-accepts_example = init_self-accepts line_ab line_64 (b'a' ∷ b'b' ∷ []) line_ab_name
