-- ===== src/Tests/ConfiguratorTests.antt =====
-- The configurator on concrete states.
use real_time_cyclic.Prelude.{pos, false, none, some, [], ◌∷◌}
use real_time_cyclic.Os.{reliable, final_state}
use real_time_cyclic.Configurator.Input.{Line}
use real_time_cyclic.Configurator.{Config}
use real_time_cyclic.Configurator.Cycle.{Answers}
use real_time_cyclic.Configurator.Main.{Round, menu_round}
use real_time_cyclic.Tests.Data.{control_start}

-- The configurator after it created 32 slaves, of which one is left.
abbrev pub one_left : Config
one_left = record {
  shmp = none;
  control = control_start;
  master_pid = pos 10;
  created_slaves_number = 32;
  created_slave = record { pid = pos 64; connected = false } ∷ [];
  spawned = [];
  sent = [];
}

-- "64", "3" and "ab" with the ends of their lines.
abbrev pub line_64 : Line
line_64 = some (b'6' ∷ b'4' ∷ 10 ∷ [])

abbrev pub line_3 : Line
line_3 = some (b'3' ∷ 10 ∷ [])

abbrev pub line_ab : Line
line_ab = some (b'a' ∷ b'b' ∷ 10 ∷ [])

abbrev pub all_yes : Answers
all_yes = record {
  string_line = some (b'y' ∷ 10 ∷ []);
  int_line = some (b'Y' ∷ 10 ∷ []);
  bool_line = some (b'n' ∷ 10 ∷ []);
  interval_line = line_64;
  string_stale = 0;
  int_stale = 0;
  bool_stale = 0;
}

abbrev pub round_64 : Round
round_64 = record {
  first_line = line_64;
  second_line = none;
  fork_pid = pos 78;
  attached = none;
  response = none;
  answers = all_yes;
  test_input = record {
    line = line_3;
    fork_pid = λ i. pos i;
    connect_response = λ i. none;
    start_response = λ i. none;
    others = λ s. s;
  };
  level_line = none;
  stale_level = [];
  log_lines = none;
}

abbrev none_left : Config
none_left = final_state one_left (menu_round reliable round_64 line_3 one_left)
