-- ===== src/Common/Text/Digits.antt =====
-- The decimal digits of an unsigned int.
use real_time_cyclic.Prelude.{
  ℕ, zero, suc, ◌+◌, ◌-◌, ◌*◌, ◌/◌, ◌%◌, ◌^◌, ◌<◌, ◌≤◌, ◌≡◌, refl, List, [], ◌∷◌, ◌++◌, length,
  length-append, arith, ltb, if◌then◌else◌, ap,
}
use native.Mathlib.Nat.{pow-suc}
use real_time_cyclic.Common.Text.{print_digits, print_unsigned}
use real_time_cyclic.Common.Text.Laws.{IsText}

abbrev pub IsDigits : List ℕ → Type 0
IsDigits [] = Unit {0}
IsDigits (c ∷ cs) = (b'0' ≤ c) × (c ≤ b'9') × IsDigits cs

IsDigits-append : (s t : List ℕ) → IsDigits s → IsDigits t → IsDigits (s ++ t)
IsDigits-append [] t h k = k
IsDigits-append (c ∷ s) t h k = (h.0, h.1, IsDigits-append s t h.2 k)

print_digits-IsDigits : (f n : ℕ) → IsDigits (print_digits f n)
unfolding print_digits
print_digits-IsDigits zero n = tt
print_digits-IsDigits (suc f) n =
    IsDigits-append (if ltb n 10 then [] else print_digits f (n / 10)) ((b'0' + n % 10) ∷ [])
      (ground (arith, print_digits-IsDigits f (n / 10))) (omega arith)

pub print_unsigned-IsDigits : (n : ℕ) → IsDigits (print_unsigned n)
unfolding print_unsigned
print_unsigned-IsDigits n = print_digits-IsDigits 10 n

pub IsDigits-IsText : (s : List ℕ) → IsDigits s → IsText s
IsDigits-IsText [] h = tt
IsDigits-IsText (c ∷ s) h = (omega arith, IsDigits-IsText s h.2)

length-print_digits : (f n : ℕ) → length (print_digits f n) ≤ f
unfolding print_digits
length-print_digits zero n = omega arith
length-print_digits (suc f) n = ground (
  arith,
  length-append (print_digits f (n / 10)) ((b'0' + n % 10) ∷ []),
  length-print_digits f (n / 10),
)

-- Ten bytes hold the digits.
pub length-print_unsigned : (n : ℕ) → length (print_unsigned n) ≤ 10
unfolding print_unsigned
length-print_unsigned n = length-print_digits 10 n

-- The number that a list of digits stands for.
unfoldable pub read_digits : ℕ → List ℕ → ℕ
read_digits acc [] = acc
read_digits acc (c ∷ cs) = read_digits (acc * 10 + c - b'0') cs

read_digits-append :
    (acc : ℕ) (s t : List ℕ) → read_digits acc (s ++ t) ≡ read_digits (read_digits acc s) t
unfolding read_digits
read_digits-append acc [] t = refl
read_digits-append acc (c ∷ s) t = read_digits-append (acc * 10 + c - b'0') s t

read_digits-print_digits : (f n : ℕ) → n < 10 ^ f → read_digits 0 (print_digits f n) ≡ n
unfolding read_digits print_digits
read_digits-print_digits zero n h = omega arith
read_digits-print_digits (suc f) n h =
    let rec : n / 10 < 10 ^ f → read_digits 0 (print_digits f (n / 10)) ≡ n / 10 =
      read_digits-print_digits f (n / 10) in
    ground (
      arith,
      rec (omega (arith, pow-suc 10 f)),
      read_digits-append 0 (print_digits f (n / 10)) ((b'0' + n % 10) ∷ []),
    )

pub read_digits-print_unsigned : (n : ℕ) → n < 2 ^ 32 → read_digits 0 (print_unsigned n) ≡ n
unfolding print_unsigned
read_digits-print_unsigned n h = read_digits-print_digits 10 n (omega arith)

-- A number has a first digit.
pub print_unsigned-first : (n : ℕ) → (d : ℕ) × (ds : List ℕ) × (print_unsigned n ≡ d ∷ ds)
unfolding print_unsigned print_digits
print_unsigned-first n = first (if ltb n 10 then [] else print_digits 9 (n / 10))
  where
    first : (s : List ℕ) → (d : ℕ) × (ds : List ℕ) × (s ++ (b'0' + n % 10) ∷ [] ≡ d ∷ ds)
    first [] = (b'0' + n % 10, [], refl)
    first (c ∷ cs) = (c, cs ++ (b'0' + n % 10) ∷ [], refl)

-- The digits of an unsigned int determine it.
pub print_unsigned-injective :
    (m n : ℕ) → m < 2 ^ 32 → n < 2 ^ 32 → print_unsigned m ≡ print_unsigned n → m ≡ n
unfolding print_unsigned
print_unsigned-injective m n h k e = omega (
  arith,
  read_digits-print_digits 10 m (omega arith),
  read_digits-print_digits 10 n (omega arith),
  ap (read_digits 0) e,
)
