-- ===== src/Common/Text.antt =====
-- The string functions of the C library that the programs call, on buffers of bytes.
pub mod Laws
pub mod Buffers
pub mod Digits
use real_time_cyclic.Prelude.{
  ℕ, zero, suc, ◌+◌, ◌/◌, ◌%◌, ◌≡◌, Bool, List, [], ◌∷◌, ◌++◌, ◌==◌, if◌then◌else◌, length, drop,
  Option, none, some, ltb, false, true, replicate, ◌&&◌,
}

-- The C string at the start of a buffer: the bytes before the first NUL.
unfoldable pub c_string : List ℕ → List ℕ
c_string [] = []
c_string (c ∷ cs) = if c == 0 then [] else c ∷ c_string cs

-- Writes `s` and a NUL at the start of `buf`; `none` is a write past the end of the buffer.
unfoldable pub strcpy : List ℕ → List ℕ → Option (List ℕ)
strcpy buf s =
    if ltb (length s) (length buf) then some (s ++ 0 ∷ drop (suc (length s)) buf) else none

-- `strcmp(a, b) == 0`, on the bytes of two C strings.
unfoldable pub streq : List ℕ → List ℕ → Bool
streq [] [] = true
streq [] (d ∷ ds) = false
streq (c ∷ cs) [] = false
streq (c ∷ cs) (d ∷ ds) = c == d && streq cs ds

-- `%u`: the decimal digits of `n`, the first below 10 ^ fuel.
unfoldable pub print_digits : ℕ → ℕ → List ℕ
print_digits zero n = []
print_digits (suc f) n =
    let rest = print_digits f (n / 10) in (if ltb n 10 then [] else rest) ++ (b'0' + n % 10) ∷ []

-- An unsigned int has at most ten digits.
unfoldable pub print_unsigned : ℕ → List ℕ
unfolding print_digits
print_unsigned n = print_digits 10 n
