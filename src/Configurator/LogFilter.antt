-- ===== src/Configurator/LogFilter.antt =====
-- src/configurator.c: PRINT_LOG_DATA, the log level that the user types and the filter of the log.
use real_time_cyclic.Prelude.{
  ℕ, ◌==◌, ltb, Bool, ◌&&◌, ◌||◌, List, [], ◌∷◌, Option, none, some, if◌then◌else◌, length,
}
use real_time_cyclic.Common.{string_size}
use real_time_cyclic.Common.Params.{has_bit, add_bit}
use real_time_cyclic.Common.Text.{c_string, streq}
use real_time_cyclic.Configurator.Input.{Line, byte_at, is_space, skip_spaces}

abbrev pub log_debug : ℕ
log_debug = 1

abbrev pub log_error : ℕ
log_error = 2

abbrev pub log_info : ℕ
log_info = 4

abbrev pub level_bit : Line → ℕ → ℕ → ℕ → ℕ
level_bit line i bit level = if byte_at line i == b'1' then add_bit level bit else level

unfoldable pub read_log_level_input : Line → ℕ
read_log_level_input line =
    level_bit line 2 log_info (level_bit line 1 log_error (level_bit line 0 log_debug 0))

-- `%s` takes the bytes up to the next space.
unfoldable pub first_word : List ℕ → List ℕ
first_word [] = []
first_word (c ∷ cs) = if is_space c then [] else c ∷ first_word cs

unfoldable pub after_word : List ℕ → List ℕ
after_word [] = []
after_word (c ∷ cs) = if is_space c then c ∷ cs else after_word cs

-- The sizes of the buffers for the month, the day, the time, the user and the name of the process,
-- and the one for the level.
abbrev pub field_sizes : List ℕ
field_sizes = 4 ∷ 3 ∷ 3 ∷ 3 ∷ string_size ∷ []

abbrev pub level_size : ℕ
level_size = 8

-- What becomes of the text in the buffer of the level: it is kept, or written; or a word and its
-- NUL do not fit their buffer.
pub data Scan : Type 0 where
  kept : Scan
  written : List ℕ → Scan
  overflow : Scan

-- The last of the `%s`.
unfoldable pub scan_level : List ℕ → Scan
scan_level [] = kept
scan_level (c ∷ cs) =
    if ltb (length (first_word (c ∷ cs))) level_size
    then written (first_word (c ∷ cs))
    else overflow

-- `sscanf(line, "%s %s %s %s %s %s", …)`, a `%s` for each size and one for the level.
unfoldable pub scan_fields : List ℕ → List ℕ → Scan
unfolding scan_level
scan_fields [] s = scan_level (skip_spaces s)
scan_fields (size ∷ sizes) s =
    let rest = scan_fields sizes (after_word (skip_spaces s)) in
    if length (skip_spaces s) == 0
    then kept
    else if ltb (length (first_word (skip_spaces s))) size
    then rest
    else overflow

abbrev pub debug_text : List ℕ
debug_text = b'[' ∷ b'D' ∷ b'E' ∷ b'B' ∷ b'U' ∷ b'G' ∷ b']' ∷ []

abbrev pub error_text : List ℕ
error_text = b'[' ∷ b'E' ∷ b'R' ∷ b'R' ∷ b'O' ∷ b'R' ∷ b']' ∷ []

abbrev pub info_text : List ℕ
info_text = b'[' ∷ b'I' ∷ b'N' ∷ b'F' ∷ b'O' ∷ b']' ∷ []

-- The conditions of the three branches, all of which print the line.
unfoldable pub is_shown : ℕ → List ℕ → Bool
is_shown log_level level =
    has_bit log_level log_debug && streq level debug_text
    || (has_bit log_level log_error && streq level error_text
        || has_bit log_level log_info && streq level info_text)

abbrev pub shown : Bool → List ℕ → Option (List (List ℕ)) → Option (List (List ℕ))
shown b line none = none
shown b line (some out) = some (if b then line ∷ out else out)

abbrev pub by_scan : Scan → List ℕ → (List ℕ → Option (List (List ℕ))) → Option (List (List ℕ))
by_scan kept level k = k level
by_scan (written text) level k = k text
by_scan overflow level k = none

-- The lines that are printed, from those of the file; `level` is the text in the buffer of the
-- level, and `none` is a write outside a buffer.
unfoldable pub filter_log : ℕ → List ℕ → List (List ℕ) → Option (List (List ℕ))
filter_log log_level level [] = some []
filter_log log_level level (line ∷ lines) =
    by_scan (scan_fields field_sizes (c_string line)) level
      λ text. shown (is_shown log_level text) line (filter_log log_level text lines)

-- `stale` is the text in the buffer before the first line. A file that cannot be opened is read all
-- the same, through the null pointer.
unfoldable pub print_log_data : ℕ → List ℕ → Option (List (List ℕ)) → Option (List (List ℕ))
unfolding filter_log
print_log_data log_level stale none = none
print_log_data log_level stale (some lines) = filter_log log_level stale lines
