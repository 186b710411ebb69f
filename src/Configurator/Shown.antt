-- ===== src/Configurator/Shown.antt =====
-- A line of the log with the time hh:mm:ss is written past the end of a buffer.
use real_time_cyclic.Prelude.{
  ℕ, ◌≤◌, ◌≡◌, refl, arith, false, List, [], ◌∷◌, ◌++◌, none, length, if◌then◌else◌, ltb,
}
use real_time_cyclic.Common.{string_size}
use real_time_cyclic.Common.Text.{c_string}
use real_time_cyclic.Configurator.Input.{is_space, skip_spaces}
use real_time_cyclic.Configurator.LogFilter.{
  first_word, after_word, field_sizes, overflow, scan_fields, filter_log,
}

-- A word is a list of bytes that are no spaces.
abbrev pub IsWord : List ℕ → Type 0
IsWord [] = Unit {0}
IsWord (c ∷ cs) = (is_space c ≡ false) × IsWord cs

first_word-word : (w r : List ℕ) → IsWord w → first_word (w ++ b' ' ∷ r) ≡ w
unfolding first_word is_space
first_word-word [] r h = refl
first_word-word (c ∷ w) r h = ground (arith, h, first_word-word w r h.1)

after_word-word : (w r : List ℕ) → IsWord w → after_word (w ++ b' ' ∷ r) ≡ b' ' ∷ r
unfolding after_word is_space
after_word-word [] r h = refl
after_word-word (c ∷ w) r h = ground (arith, h, after_word-word w r h.1)

skip_spaces-word : (c : ℕ) (w : List ℕ) → is_space c ≡ false → skip_spaces (c ∷ w) ≡ c ∷ w
unfolding skip_spaces
skip_spaces-word c w h = ground (arith, h)

scan_fields-word :
    (size c : ℕ) (sizes w r s : List ℕ)
    → IsWord (c ∷ w)
    → skip_spaces s ≡ c ∷ w ++ b' ' ∷ r
    → scan_fields (size ∷ sizes) s
      ≡ (if ltb (length (c ∷ w)) size then scan_fields sizes (b' ' ∷ r) else overflow)
unfolding scan_fields
scan_fields-word size c sizes w r s h e =
    rw (e, first_word-word (c ∷ w) r h, after_word-word (c ∷ w) r h) (ground arith)

skip_spaces-space : (c : ℕ) (w : List ℕ) → is_space c ≡ false → skip_spaces (b' ' ∷ c ∷ w) ≡ c ∷ w
unfolding skip_spaces is_space
skip_spaces-space c w h = ground (arith, h)

-- The third buffer is for less than three bytes.
scan_fields-long_time :
    (month day time rest : List ℕ) (m d t : ℕ)
    → IsWord (m ∷ month)
    → IsWord (d ∷ day)
    → IsWord (t ∷ time)
    → 2 ≤ length time
    → scan_fields field_sizes
        (m ∷ month ++ (b' ' ∷ (d ∷ day ++ (b' ' ∷ (t ∷ time ++ (b' ' ∷ rest))))))
      ≡ overflow
scan_fields-long_time month day time rest m d t hm hd ht long =
    ground (arith, long, of_month, of_day, of_time)
  where
    from_time : List ℕ
    from_time = t ∷ time ++ (b' ' ∷ rest)

    from_day : List ℕ
    from_day = d ∷ day ++ (b' ' ∷ from_time)

    from_month : List ℕ
    from_month = m ∷ month ++ (b' ' ∷ from_day)

    of_month : scan_fields field_sizes from_month ≡ (
        if ltb (length (m ∷ month)) 4
        then scan_fields (3 ∷ 3 ∷ 3 ∷ string_size ∷ []) (b' ' ∷ from_day)
        else overflow)
    of_month =
        scan_fields-word 4 m (3 ∷ 3 ∷ 3 ∷ string_size ∷ []) month from_day from_month hm
          (skip_spaces-word m (month ++ (b' ' ∷ from_day)) hm.0)

    of_day : scan_fields (3 ∷ 3 ∷ 3 ∷ string_size ∷ []) (b' ' ∷ from_day) ≡ (
        if ltb (length (d ∷ day)) 3
        then scan_fields (3 ∷ 3 ∷ string_size ∷ []) (b' ' ∷ from_time)
        else overflow)
    of_day =
        scan_fields-word 3 d (3 ∷ 3 ∷ string_size ∷ []) day from_time (b' ' ∷ from_day) hd
          (skip_spaces-space d (day ++ (b' ' ∷ from_time)) hd.0)

    of_time : scan_fields (3 ∷ 3 ∷ string_size ∷ []) (b' ' ∷ from_time) ≡ (
        if ltb (length (t ∷ time)) 3
        then scan_fields (3 ∷ string_size ∷ []) (b' ' ∷ rest)
        else overflow)
    of_time =
        scan_fields-word 3 t (3 ∷ string_size ∷ []) time rest (b' ' ∷ from_time) ht
          (skip_spaces-space t (time ++ (b' ' ∷ rest)) ht.0)

-- A file whose first line has a third word of three bytes or more, as every time of the form hh:mm:ss
-- is, is not shown: the word is written past the end of its buffer, whatever level is chosen.
pub filter_log-overflow :
    (log_level : ℕ) (stale : List ℕ) (month day time rest line : List ℕ) (lines : List (List ℕ))
    (m d t : ℕ)
    → IsWord (m ∷ month)
    → IsWord (d ∷ day)
    → IsWord (t ∷ time)
    → 2 ≤ length time
    → c_string line ≡ m ∷ month ++ (b' ' ∷ (d ∷ day ++ (b' ' ∷ (t ∷ time ++ (b' ' ∷ rest)))))
    → filter_log log_level stale (line ∷ lines) ≡ none
unfolding filter_log
filter_log-overflow log_level stale month day time rest line lines m d t hm hd ht long e =
    rw (e, scan_fields-long_time month day time rest m d t hm hd ht long) refl
