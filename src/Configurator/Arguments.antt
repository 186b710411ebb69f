-- ===== src/Configurator/Arguments.antt =====
-- The arguments that CREATE_SLAVE of src/configurator.c gives to the slave, and what src/slave.c
-- makes of them.
use real_time_cyclic.Prelude.{
  ℕ, zero, suc, ◌<◌, ◌≤◌, ◌≡◌, refl, arith, Bool, true, false, ◌==◌, List, [], ◌∷◌, none, some,
  length, if◌then◌else◌, replicate, pos,
}
use mathlib.Core.Path.{ap₂}
use real_time_cyclic.Common.{slave_name_size}
use real_time_cyclic.Common.Params.{
  IsMask, has_bit, add_bit, string_parameter_bit, int_parameter_bit, bool_parameter_bit,
}
use real_time_cyclic.Common.Text.{c_string}
use real_time_cyclic.Common.Text.Laws.{IsText, strcpy_fits, c_string-IsText}
use real_time_cyclic.Slave.Node.{Self}
use real_time_cyclic.Slave.Signals.{init_self, is_one_at, parse_bit, parse_parameters, self_of}
use real_time_cyclic.Configurator.Input.{
  Line, buffer_of, byte_at, skip_spaces, word_of, scan_word, flag_at,
}
use real_time_cyclic.Configurator.Menu.{name_of, parameters_of}

length-word_of : (width : ℕ) (s : List ℕ) → length (word_of width s) ≤ width
unfolding word_of
length-word_of zero s = omega arith
length-word_of (suc width) [] = omega arith
length-word_of (suc width) (c ∷ s) = ground (arith, length-word_of width s)

word_of-IsText : (width : ℕ) (s : List ℕ) → IsText s → IsText (word_of width s)
unfolding word_of
word_of-IsText zero s h = tt
word_of-IsText (suc width) [] h = tt
word_of-IsText (suc width) (c ∷ s) h = ground (arith, h, word_of-IsText width s h.1)

skip_spaces-IsText : (s : List ℕ) → IsText s → IsText (skip_spaces s)
unfolding skip_spaces
skip_spaces-IsText [] h = tt
skip_spaces-IsText (c ∷ s) h = ground (arith, h, skip_spaces-IsText s h.1)

-- An accepted name is a text that fits the slave's buffer.
name_of-fits :
    (line : Line) (name : List ℕ)
    → name_of line ≡ some name
    → IsText name × (length name < slave_name_size)
unfolding name_of scan_word
name_of-fits line name e = ground (
  arith,
  e,
  length-word_of 127 (skip_spaces (c_string (buffer_of line))),
  word_of-IsText 127 (skip_spaces (c_string (buffer_of line)))
      (skip_spaces-IsText (c_string (buffer_of line)) (c_string-IsText (buffer_of line))),
)

abbrev flag : Bool → ℕ
flag b = if b then b'1' else b'0'

Parsed : Bool → Bool → Bool → Type 0
Parsed s t b =
    (mask : ℕ) × (parse_parameters (flag s ∷ flag t ∷ flag b ∷ []) ≡ some mask)
    × IsMask mask
    × (has_bit mask string_parameter_bit ≡ s)
    × (has_bit mask int_parameter_bit ≡ t)
    × (has_bit mask bool_parameter_bit ≡ b)

parse_flags : (s t b : Bool) → Parsed s t b
unfolding Parsed parse_parameters parse_bit is_one_at has_bit add_bit
parse_flags true true true = (7, refl, omega arith, refl, refl, refl)
parse_flags true true false = (3, refl, omega arith, refl, refl, refl)
parse_flags true false true = (5, refl, omega arith, refl, refl, refl)
parse_flags true false false = (1, refl, omega arith, refl, refl, refl)
parse_flags false true true = (6, refl, omega arith, refl, refl, refl)
parse_flags false true false = (2, refl, omega arith, refl, refl, refl)
parse_flags false false true = (4, refl, omega arith, refl, refl, refl)
parse_flags false false false = (0, refl, omega arith, refl, refl, refl)

-- Whatever lines the configurator accepts for a new slave, the slave starts: it has the name that
-- was typed, up to 127 bytes of it, and the parameters whose place in the second line has a 1.
pub init_self-accepts :
    (name_line parameters_line : Line) (name : List ℕ)
    → name_of name_line ≡ some name
    → (self : Self) × (init_self name (parameters_of parameters_line) ≡ some self)
      × (c_string self.name ≡ name)
      × IsMask self.available_parameters
      × (has_bit self.available_parameters string_parameter_bit
          ≡ (byte_at parameters_line 0 == b'1'))
      × (has_bit self.available_parameters int_parameter_bit ≡ (byte_at parameters_line 1 == b'1'))
      × (has_bit self.available_parameters bool_parameter_bit ≡ (byte_at parameters_line 2 == b'1'))
unfolding init_self parameters_of flag_at Parsed
init_self-accepts name_line parameters_line name e =
    let fits = name_of-fits name_line name e in
    let copied = strcpy_fits (replicate slave_name_size 0) name fits.0 fits.1 in
    let parsed : Parsed (byte_at parameters_line 0 == b'1') (byte_at parameters_line 1 == b'1')
        (byte_at parameters_line 2 == b'1') =
      parse_flags (byte_at parameters_line 0 == b'1') (byte_at parameters_line 1 == b'1')
        (byte_at parameters_line 2 == b'1') in
    (
      record {
        name = copied.0;
        change_name_idx = 0;
        available_parameters = parsed.0;
        last_sec = 0;
        last_usec = 0;
        excess_interval_us = pos 0;
        allow_cycle = 0;
        shmseg = none;
      },
      ap₂ self_of copied.1 parsed.1,
      copied.2,
      parsed.2,
      parsed.3,
      parsed.4,
      parsed.5,
    )
