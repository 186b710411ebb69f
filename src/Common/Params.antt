-- ===== src/Common/Params.antt =====
-- src/common.h: the bits of the parameter masks.
use real_time_cyclic.Prelude.{ℕ, ◌<◌, Bool, not, ◌==◌, bit_and, bit_or}

abbrev pub string_parameter_bit : ℕ
string_parameter_bit = 1

abbrev pub int_parameter_bit : ℕ
int_parameter_bit = 2

abbrev pub bool_parameter_bit : ℕ
bool_parameter_bit = 4

-- `mask & bit` as a condition.
unfoldable pub has_bit : ℕ → ℕ → Bool
has_bit mask bit = not (bit_and mask bit == 0)

-- `mask |= bit`.
unfoldable pub add_bit : ℕ → ℕ → ℕ
add_bit mask bit = bit_or mask bit

-- A mask that is built from the three bits alone.
abbrev pub IsMask : ℕ → Type 0
IsMask mask = mask < 8
