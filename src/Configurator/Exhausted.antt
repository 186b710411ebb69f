-- ===== src/Configurator/Exhausted.antt =====
-- The number of created slaves through all uses of the menu.
pub mod Cases
pub mod Cycle
pub mod AutomaticTest
pub mod Rounds
use real_time_cyclic.Prelude.{Option}
use real_time_cyclic.Common.{Shm}
use real_time_cyclic.Os.{Os, final_state, Ensures}
use real_time_cyclic.Configurator.Input.{Line}
use real_time_cyclic.Configurator.{Config}
use real_time_cyclic.Configurator.Main.{Round, menu_round}

-- Rounds of the menu, and what the other processes do to the shared memory in between.
pub data Runs (os : Os) (c : Config) : Config → Type 0 where
  idle : Runs os c c
  round :
      {d : Config} (r : Round) (line : Line)
      → Runs os c d
      → Runs os c (final_state d (menu_round os r line d))
  others : {d : Config} (shmp : Option Shm) → Runs os c d → Runs os c (record d { shmp = shmp })
