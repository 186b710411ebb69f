-- ===== src/Configurator/Input.antt =====
-- src/configurator.c: the lines that the user types, and what `sscanf` reads from them.
use real_time_cyclic.Prelude.{
  ℕ, zero, suc, ◌-◌, ◌%◌, ◌^◌, ℤ, pos, negsuc, Bool, true, false, ◌&&◌, ◌||◌, List, [], ◌∷◌, Option,
  none, some, ltb, leb, ◌==◌, if◌then◌else◌, length, get_or, replicate,
}
use real_time_cyclic.Common.Text.{c_string}
use real_time_cyclic.Common.Text.Digits.{read_digits}

abbrev pub max_line_length : ℕ
max_line_length = 16

-- What `getline` stores; `none` when it returns -1.
abbrev pub Line : Type 0
Line = Option (List ℕ)

-- The result of `getline` as a size_t, to which the code converts it.
unfoldable pub read_characters : Line → ℕ
read_characters none = 2 ^ 64 - 1
read_characters (some s) = length s

-- The buffer after the call. It comes from `calloc`, and at the end of the input it stays as it was.
unfoldable pub buffer_of : Line → List ℕ
buffer_of none = replicate max_line_length 0
buffer_of (some s) = s

-- `line[i]`, for an index below MAX_LINE_LENGTH; a NUL follows the bytes that were read.
unfoldable pub byte_at : Line → ℕ → ℕ
unfolding buffer_of
byte_at line i = get_or (buffer_of line) i 0

-- The bytes for which `isspace` holds.
unfoldable pub is_space : ℕ → Bool
is_space c = c == 32 || (leb 9 c && leb c 13)

unfoldable pub is_digit : ℕ → Bool
is_digit c = leb b'0' c && leb c b'9'

unfoldable pub skip_spaces : List ℕ → List ℕ
skip_spaces [] = []
skip_spaces (c ∷ cs) = if is_space c then skip_spaces cs else c ∷ cs

unfoldable pub digits_of : List ℕ → List ℕ
digits_of [] = []
digits_of (c ∷ cs) = if is_digit c then c ∷ digits_of cs else []

abbrev pub long_max : ℕ
long_max = 2 ^ 63 - 1

-- `strtol` on the digits after a sign: a number out of range is the nearest long.
unfoldable pub to_long : Bool → ℕ → ℤ
to_long true n = if n == 0 then pos 0 else negsuc (if ltb long_max n then long_max else n - 1)
to_long false n = pos (if ltb long_max n then long_max else n)

unfoldable pub long_of_digits : Bool → List ℕ → Option ℤ
long_of_digits negative [] = none
long_of_digits negative (d ∷ ds) = some (to_long negative (read_digits 0 (d ∷ ds)))

unfoldable pub long_of_signed : List ℕ → Option ℤ
long_of_signed [] = none
long_of_signed (c ∷ cs) =
    if c == b'-'
    then long_of_digits true (digits_of cs)
    else if c == b'+'
    then long_of_digits false (digits_of cs)
    else long_of_digits false (digits_of (c ∷ cs))

-- `sscanf(line, "%ld", …)`; `none` when its result is not 1.
unfoldable pub scan_long : List ℕ → Option ℤ
unfolding long_of_signed
scan_long s = long_of_signed (skip_spaces (c_string s))

-- The low 32 bits of a long, as an int.
unfoldable pub int_of_word : ℕ → ℤ
int_of_word w = if ltb w (2 ^ 31) then pos w else negsuc (2 ^ 32 - w - 1)

unfoldable pub int_of_long : ℤ → ℤ
int_of_long (pos n) = int_of_word (n % 2 ^ 32)
int_of_long (negsuc n) = int_of_word (2 ^ 32 - 1 - n % 2 ^ 32)

-- `sscanf(line, "%d", …)`.
unfoldable pub scan_int : List ℕ → Option ℤ
scan_int s = elim (scan_long s) [ none ↦ none | some n ↦ some (int_of_long n) ]

-- The first byte of a text, or `old` where there is none.
abbrev pub first_or : ℕ → List ℕ → ℕ
first_or old [] = old
first_or old (c ∷ cs) = c

-- `sscanf(line, "%c", &c)`: when the line is empty, as at the end of the input, nothing is stored and
-- `c` keeps the value it has.
unfoldable pub scan_char : List ℕ → ℕ → ℕ
scan_char s old = first_or old (c_string s)

-- The bytes up to the next space, at most `width` of them.
unfoldable pub word_of : ℕ → List ℕ → List ℕ
word_of zero s = []
word_of (suc width) [] = []
word_of (suc width) (c ∷ cs) = if is_space c then [] else c ∷ word_of width cs

-- What `%<width>s` reads; nothing is stored when it is empty.
unfoldable pub scan_word : ℕ → List ℕ → List ℕ
scan_word width s = word_of width (skip_spaces (c_string s))

-- `buffer[i] = '1'` where `line[i] == '1'`, in an answer of three zeros and ones.
unfoldable pub flag_at : Line → ℕ → ℕ
flag_at line i = if byte_at line i == b'1' then b'1' else b'0'

-- A pid that the user types; `none` for a line that is refused.
unfoldable pub read_pid : Line → Option ℤ
read_pid line =
    if ltb (read_characters line) 1 || (ltb (byte_at line 0) b'0' || ltb b'9' (byte_at line 0))
    then none
    else scan_int (buffer_of line)
