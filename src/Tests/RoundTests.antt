-- ===== src/Tests/RoundTests.antt =====
-- A round of the menu: the slave 77 is created and connected, and the user disconnects it.
use real_time_cyclic.Prelude.{[], ◌∷◌, some, pos}
use real_time_cyclic.Common.{Shmseg, zeroed_shmseg, no_pid, ack}
use real_time_cyclic.Os.{final_state}
use real_time_cyclic.Configurator.Input.{Line}
use real_time_cyclic.Configurator.{Config, register_slave_locally}
use real_time_cyclic.Configurator.Main.{Round}
use real_time_cyclic.Tests.MenuTests.{empty, attached, line_77}
use real_time_cyclic.Tests.ConfiguratorTests.{round_64}

abbrev line_5 : Line
line_5 = some (b'5' ∷ 10 ∷ [])

-- The memory is attached, and then the slave 77 is created.
abbrev unused : Config
unused = record empty { shmp = some attached }

abbrev one_slave : Config
one_slave = final_state unused (register_slave_locally (pos 77) unused)

abbrev disconnects : Round
disconnects = record round_64 { first_line = line_77; response = some ack }

abbrev free : Shmseg
free = record zeroed_shmseg { pid = no_pid }
