-- ===== src/Configurator/Data.antt =====
-- src/configurator.c: what PRINT_SLAVE_DATA prints, as values.
use real_time_cyclic.Prelude.{
  ℕ, zero, suc, ◌+◌, ℤ, ◌==ℤ◌, Bool, List, [], ◌∷◌, ◌++◌, Option, none, some, get_or, if◌then◌else◌,
}
use real_time_cyclic.Common.{Shm, Shmseg, zeroed_shmseg, no_pid, max_slaves}
use real_time_cyclic.Common.Params.{
  has_bit, string_parameter_bit, int_parameter_bit, bool_parameter_bit,
}
use real_time_cyclic.Common.Text.{c_string}
use real_time_cyclic.Table.{Slot, at, no_idx, out_of_bounds}
use real_time_cyclic.Configurator.{Config, CreatedSlave, blank}
use real_time_cyclic.Configurator.Cycle.{get_assigned_shmseg_idx}

-- The kinds of parameters that are listed as available.
pub data Kind : Type 0 where
  string_kind int_kind bool_kind : Kind

-- A requested parameter with its last value.
pub data Value : Type 0 where
  string_known : List ℕ → Value
  int_known : ℤ → Value
  bool_known : ℕ → Value

-- A row for a segment; `requested` is `none` while the cycle is not started.
pub record SlaveData : Type 0 where
  pub pid : ℤ
  pub name : List ℕ
  pub connected : Bool
  pub available : List Kind
  pub requested : Option (List Value)

pub data Row : Type 0 where
  just_created : ℤ → Row
  slave_data : SlaveData → Row

abbrev pub when_bit : {A : Type 0} → ℕ → ℕ → A → List A
when_bit mask bit a = if has_bit mask bit then a ∷ [] else []

unfoldable pub available_of : ℕ → List Kind
available_of mask =
    when_bit mask string_parameter_bit string_kind
    ++ (when_bit mask int_parameter_bit int_kind ++ when_bit mask bool_parameter_bit bool_kind)

unfoldable pub requested_of : Shmseg → List Value
requested_of g =
    when_bit g.requested_parameters string_parameter_bit
      (string_known (c_string g.last_known_string_value))
    ++ (when_bit g.requested_parameters int_parameter_bit (int_known g.last_known_int_value)
        ++ when_bit g.requested_parameters bool_parameter_bit (bool_known g.last_known_bool_value))

unfoldable pub data_of : ℤ → Shmseg → SlaveData
unfolding available_of requested_of
data_of pid g = record {
  pid = pid;
  name = c_string g.name;
  connected = g.is_connected;
  available = available_of g.available_parameters;
  requested = if g.cycle_started then some (requested_of g) else none;
}

-- The rows for the pid of a segment, from the index that is looked up for it; `none` is a read
-- outside the table.
unfoldable pub rows_at : ℤ → List Shmseg → Slot → Option (List Row)
rows_at pid segments (at i) = some (slave_data (data_of pid (get_or segments i zeroed_shmseg)) ∷ [])
rows_at pid segments no_idx = some []
rows_at pid segments out_of_bounds = none

unfoldable pub print_slave_data_by_pid : ℤ → List Shmseg → Option (List Row)
unfolding rows_at
print_slave_data_by_pid pid segments = rows_at pid segments (get_assigned_shmseg_idx pid segments)

-- What one round of the loop prints, for the segment and the created slave at one index.
unfoldable pub print_round : List Shmseg → Shmseg → CreatedSlave → Option (List Row)
unfolding print_slave_data_by_pid
print_round segments g s =
    if g.pid ==ℤ no_pid
    then (if s.pid ==ℤ no_pid then some [] else some (just_created s.pid ∷ []))
    else print_slave_data_by_pid g.pid segments

abbrev pub both : {A : Type 0} → Option (List A) → Option (List A) → Option (List A)
both none o = none
both (some xs) none = none
both (some xs) (some ys) = some (xs ++ ys)

-- The loop: `rounds` of them, the next at index `i`.
unfoldable pub print_rows : List Shmseg → List CreatedSlave → ℕ → ℕ → Option (List Row)
unfolding print_round
print_rows segments created zero i = some []
print_rows segments created (suc rounds) i =
    both (print_round segments (get_or segments i zeroed_shmseg) (get_or created i blank))
      (print_rows segments created rounds (i + 1))

abbrev pub print_segments : Option Shm → List CreatedSlave → Option (List Row)
print_segments none created = some []
print_segments (some shm) created = print_rows shm.slave_shmseg created max_slaves 0

unfoldable pub print_slave_data : Config → Option (List Row)
print_slave_data c = print_segments c.shmp c.created_slave
