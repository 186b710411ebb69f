-- ===== src/Configurator/Cycle/Bits.antt =====
-- Which parameters are requested after the questions of START_SLAVE_CYCLE of src/configurator.c.
use real_time_cyclic.Prelude.{
  ℕ, zero, suc, ◌<◌, ◌≡◌, arith, Bool, ◌&&◌, ◌||◌, length, if◌then◌else◌,
}
use real_time_cyclic.Common.{Shm, Shmseg}
use real_time_cyclic.Common.Params.{
  IsMask, has_bit, add_bit, string_parameter_bit, int_parameter_bit, bool_parameter_bit,
}
use real_time_cyclic.Configurator.Input.{Line}
use real_time_cyclic.Table.{at}
use real_time_cyclic.Configurator.{Config}
use real_time_cyclic.Configurator.Cycle.{Answers, ask_all, ask_interval}
use real_time_cyclic.Configurator.Cycle.Requests.{
  answered, answered_all, wants, AllTyped, with_segment, ask_all-answered,
}

-- What a mask becomes by `|=` with a bit, under a condition.
abbrev add_if : Bool → ℕ → ℕ → ℕ
add_if b bit mask = if b then add_bit mask bit else mask

Adds : Bool → Bool → Bool → ℕ → Type 0
Adds s t b mask =
    let after =
      add_if b bool_parameter_bit
        (add_if t int_parameter_bit (add_if s string_parameter_bit mask)) in
    (after < 8)
    × (has_bit after string_parameter_bit ≡ (has_bit mask string_parameter_bit || s))
    × (has_bit after int_parameter_bit ≡ (has_bit mask int_parameter_bit || t))
    × (has_bit after bool_parameter_bit ≡ (has_bit mask bool_parameter_bit || b))

below_8 : (P : ℕ → Type 0) → P 0 → P 1 → P 2 → P 3 → P 4 → P 5 → P 6 → P 7 → (m : ℕ) → m < 8 → P m
below_8 P a b c d e f g h zero lt = a
below_8 P a b c d e f g h (suc zero) lt = b
below_8 P a b c d e f g h (suc (suc zero)) lt = c
below_8 P a b c d e f g h (suc (suc (suc zero))) lt = d
below_8 P a b c d e f g h (suc (suc (suc (suc zero)))) lt = e
below_8 P a b c d e f g h (suc (suc (suc (suc (suc zero))))) lt = f
below_8 P a b c d e f g h (suc (suc (suc (suc (suc (suc zero)))))) lt = g
below_8 P a b c d e f g h (suc (suc (suc (suc (suc (suc (suc zero))))))) lt = h
below_8 P a b c d e f g h (suc (suc (suc (suc (suc (suc (suc (suc m)))))))) lt =
    absurd (omega arith)

Adds-all : (s t b : Bool) (mask : ℕ) → mask < 8 → Adds s t b mask
unfolding Adds has_bit add_bit
Adds-all s t b =
    below_8 (Adds s t b) (ground arith) (ground arith) (ground arith) (ground arith) (ground arith)
      (ground arith) (ground arith) (ground arith)

answered-requested :
    (line : Line) (bit : ℕ) (g : Shmseg)
    → ((answered line bit g).requested_parameters
        ≡ add_if (has_bit g.available_parameters bit && wants line) bit g.requested_parameters)
      × ((answered line bit g).available_parameters ≡ g.available_parameters)
unfolding answered
answered-requested line bit g = ground arith

answered_all-Bits :
    (a : Answers) (g : Shmseg)
    → IsMask g.requested_parameters
    → IsMask (answered_all a g).requested_parameters
      × (has_bit (answered_all a g).requested_parameters string_parameter_bit ≡ (
          has_bit g.requested_parameters string_parameter_bit
          || (has_bit g.available_parameters string_parameter_bit && wants a.string_line)))
      × (has_bit (answered_all a g).requested_parameters int_parameter_bit ≡ (
          has_bit g.requested_parameters int_parameter_bit
          || (has_bit g.available_parameters int_parameter_bit && wants a.int_line)))
      × (has_bit (answered_all a g).requested_parameters bool_parameter_bit ≡ (
          has_bit g.requested_parameters bool_parameter_bit
          || (has_bit g.available_parameters bool_parameter_bit && wants a.bool_line)))
unfolding answered_all Adds
answered_all-Bits a g mask =
    rw
      (
        (answered-requested a.bool_line bool_parameter_bit of_int).0,
        (answered-requested a.int_line int_parameter_bit of_string).1,
        (answered-requested a.int_line int_parameter_bit of_string).0,
        (answered-requested a.string_line string_parameter_bit g).0,
        (answered-requested a.string_line string_parameter_bit g).1,
      )
      (Adds-all (has_bit g.available_parameters string_parameter_bit && wants a.string_line)
        (has_bit g.available_parameters int_parameter_bit && wants a.int_line)
        (has_bit g.available_parameters bool_parameter_bit && wants a.bool_line)
        g.requested_parameters mask)
  where
    of_string : Shmseg
    of_string = answered a.string_line string_parameter_bit g

    of_int : Shmseg
    of_int = answered a.int_line int_parameter_bit of_string

-- When a line is typed for each of the three questions, a parameter is requested of the slave at `i`
-- exactly if it was before, or if the slave has it and the line starts with 'y' or 'Y'; no answer takes
-- a request back. Then the time is asked for.
pub ask_all-Bits :
    (a : Answers) (c : Config) (shm : Shm) (i : ℕ) (g : Shmseg)
    → i < length shm.slave_shmseg
    → AllTyped a
    → IsMask g.requested_parameters
    → (after : Shmseg) × (ask_all a (at i) (with_segment c shm i g)
        ≡ ask_interval a.interval_line (at i) (with_segment c shm i after))
      × IsMask after.requested_parameters
      × (has_bit after.requested_parameters string_parameter_bit ≡ (
          has_bit g.requested_parameters string_parameter_bit
          || (has_bit g.available_parameters string_parameter_bit && wants a.string_line)))
      × (has_bit after.requested_parameters int_parameter_bit ≡ (
          has_bit g.requested_parameters int_parameter_bit
          || (has_bit g.available_parameters int_parameter_bit && wants a.int_line)))
      × (has_bit after.requested_parameters bool_parameter_bit ≡ (
          has_bit g.requested_parameters bool_parameter_bit
          || (has_bit g.available_parameters bool_parameter_bit && wants a.bool_line)))
ask_all-Bits a c shm i g lt read mask =
    let bits = answered_all-Bits a g mask in
    (answered_all a g, ask_all-answered c shm i lt a g read, bits.0, bits.1, bits.2, bits.3)
