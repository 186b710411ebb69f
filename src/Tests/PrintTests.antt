-- ===== src/Tests/PrintTests.antt =====
-- What the configurator prints, on a small log and for the slave 77.
use real_time_cyclic.Prelude.{
  ℕ, ◌≡◌, refl, ◌⊎◌, inl, inr, arith, false, List, [], ◌∷◌, none, some, pos, get_or, replicate,
  get_or-replicate, get_or-set, ℕ_discrete, if◌then◌else◌, ◌<◌, ◌≤◌, ◌==◌,
}
use real_time_cyclic.Common.{zeroed_shmseg, no_pid, max_slaves}
use real_time_cyclic.Common.Text.{c_string}
use real_time_cyclic.Table.Laws.{Unique}
use real_time_cyclic.Configurator.Input.{is_space}
use real_time_cyclic.Configurator.{Config}
use real_time_cyclic.Configurator.LogFilter.{filter_log}
use real_time_cyclic.Configurator.Shown.{filter_log-overflow}
use real_time_cyclic.Configurator.Data.{print_slave_data}
use real_time_cyclic.Configurator.Printed.{rows_from, print_slave_data-rows}
use real_time_cyclic.Tests.MenuTests.{empty, segment_77, segments, attached}

-- With the time 12:30.
abbrev line_timed : List ℕ
line_timed = b'N' ∷ b' ' ∷ b'1' ∷ b' ' ∷ b'1' ∷ b'2' ∷ b':' ∷ b'3' ∷ b'0' ∷ b' ' ∷ b'u' ∷ []

line_timed_text : c_string line_timed ≡ line_timed
unfolding c_string
line_timed_text = refl

word_1 : (c : ℕ) → b'0' ≤ c → is_space c ≡ false
unfolding is_space
word_1 c h = ground arith

filter_log-overflow_example : filter_log 4 [] (line_timed ∷ []) ≡ none
filter_log-overflow_example =
    filter_log-overflow 4 [] [] [] (b'2' ∷ b':' ∷ b'3' ∷ b'0' ∷ []) (b'u' ∷ []) line_timed [] b'N'
      b'1' b'1' (word_1 b'N' (omega arith), tt) (word_1 b'1' (omega arith), tt)
      (
        word_1 b'1' (omega arith),
        (
          word_1 b'2' (omega arith),
          (word_1 b':' (omega arith), (word_1 b'3' (omega arith), (word_1 b'0' (omega arith), tt))),
        ),
      )
      (omega arith) line_timed_text

abbrev printing : Config
printing = record empty { shmp = some attached }

segment_at :
    (i : ℕ)
    → get_or segments i zeroed_shmseg ≡ (
        if 13 == i
        then segment_77
        else get_or (replicate max_slaves (record zeroed_shmseg { pid = no_pid })) i zeroed_shmseg)
segment_at i =
    get_or-set (replicate max_slaves (record zeroed_shmseg { pid = no_pid })) 13 i segment_77
      zeroed_shmseg (omega arith)

blank_at :
    (i : ℕ)
    → i < max_slaves
    → get_or (replicate max_slaves (record zeroed_shmseg { pid = no_pid })) i zeroed_shmseg
      ≡ record zeroed_shmseg { pid = no_pid }
blank_at i lt = get_or-replicate max_slaves i _ zeroed_shmseg lt

segments-Unique : Unique (λ g. g.pid) zeroed_shmseg segments
segments-Unique i j hi hj used same =
    ground (arith, segment_at i, segment_at j, blank_at i hi, blank_at j hj)

segments_owned :
    (i : ℕ)
    → i < max_slaves
    → ((get_or segments i zeroed_shmseg).pid ≡ no_pid)
      ⊎ ((p : ℕ) × ((get_or segments i zeroed_shmseg).pid ≡ pos p))
segments_owned i lt = elim (ℕ_discrete 13 i) [
  | yes e ↦ inr (77, ground (arith, segment_at i, e))
  | no n ↦ inl (ground (arith, segment_at i, blank_at i lt, n))
]

print_slave_data-rows_example :
    print_slave_data printing ≡ some (rows_from segments printing.created_slave max_slaves 0)
print_slave_data-rows_example =
    print_slave_data-rows printing attached segments-Unique segments_owned refl
