-- ===== src/Configurator/Typed.antt =====
-- A pid that the configurator printed, and that the user types.
use real_time_cyclic.Prelude.{
  ℕ, ◌^◌, ◌<◌, ◌≤◌, ◌≡◌, refl, ap, sym, ◌∙◌, subst, arith, pos, false, List, [], ◌∷◌, ◌++◌, some,
}
use real_time_cyclic.Common.Text.{c_string, print_unsigned}
use real_time_cyclic.Common.Text.Digits.{
  IsDigits, print_unsigned-IsDigits, print_unsigned-first, read_digits-print_unsigned, read_digits,
}
use real_time_cyclic.Configurator.Input.{
  read_characters, buffer_of, byte_at, is_space, is_digit, skip_spaces, digits_of, to_long,
  long_of_digits, long_of_signed, scan_long, int_of_word, int_of_long, scan_int, read_pid,
}

abbrev pub end_of_line : List ℕ
end_of_line = 10 ∷ []

c_string-digits : (s : List ℕ) → IsDigits s → c_string (s ++ end_of_line) ≡ s ++ end_of_line
unfolding c_string
c_string-digits [] h = refl
c_string-digits (c ∷ s) h = ground (arith, h, c_string-digits s h.2)

digits_of-digits : (s : List ℕ) → IsDigits s → digits_of (s ++ end_of_line) ≡ s
unfolding digits_of is_digit
digits_of-digits [] h = refl
digits_of-digits (c ∷ s) h = ground (arith, h, digits_of-digits s h.2)

-- A digit is no space and no sign.
skip_spaces-digit : (d : ℕ) (t : List ℕ) → b'0' ≤ d → d ≤ b'9' → skip_spaces (d ∷ t) ≡ d ∷ t
unfolding skip_spaces is_space
skip_spaces-digit d t l h = ground arith

long_of_signed-digit :
    (d : ℕ) (t : List ℕ)
    → b'0' ≤ d
    → d ≤ b'9'
    → long_of_signed (d ∷ t) ≡ long_of_digits false (digits_of (d ∷ t))
unfolding long_of_signed
long_of_signed-digit d t l h = ground arith

scan_long-digits :
    (d : ℕ) (s : List ℕ)
    → IsDigits (d ∷ s)
    → scan_long (d ∷ s ++ end_of_line) ≡ some (to_long false (read_digits 0 (d ∷ s)))
unfolding scan_long long_of_digits
scan_long-digits d s h = rw (
  c_string-digits (d ∷ s) h,
  skip_spaces-digit d (s ++ end_of_line) h.0 h.1,
  long_of_signed-digit d (s ++ end_of_line) h.0 h.1,
  digits_of-digits (d ∷ s) h,
)

int_of_long-pos : (n : ℕ) → n < 2 ^ 31 → int_of_long (to_long false n) ≡ pos n
unfolding int_of_long to_long int_of_word
int_of_long-pos n h = ground arith

read_pid-digits :
    (n d : ℕ) (s : List ℕ)
    → n < 2 ^ 31
    → IsDigits (d ∷ s)
    → read_digits 0 (d ∷ s) ≡ n
    → read_pid (some (d ∷ s ++ end_of_line)) ≡ some (pos n)
unfolding read_pid read_characters byte_at buffer_of scan_int
read_pid-digits n d s lt h e = ground (arith, h, scan_long-digits d s h, e, int_of_long-pos n lt)

-- What the menu prints for a pid is read as that pid when the user types it.
pub read_pid_round_trip :
    (n : ℕ) → n < 2 ^ 31 → read_pid (some (print_unsigned n ++ end_of_line)) ≡ some (pos n)
read_pid_round_trip n lt =
    let first : (d : ℕ) × (s : List ℕ) × (print_unsigned n ≡ d ∷ s) = print_unsigned-first n in
    let digits : IsDigits (first.0 ∷ first.1) =
      subst (λ s. IsDigits s) first.2 (print_unsigned-IsDigits n) in
    let value : read_digits 0 (first.0 ∷ first.1) ≡ n =
      sym (ap (read_digits 0) first.2) ∙ read_digits-print_unsigned n (omega arith) in
    rw (first.2, read_pid-digits n first.0 first.1 lt digits value) refl
