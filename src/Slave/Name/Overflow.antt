-- ===== src/Slave/Name/Overflow.antt =====
-- The rename of src/slave.c when the name is too long for its number.
use real_time_cyclic.Prelude.{
  ℕ, ◌+◌, ◌≤◌, ◌≡◌, ◌≢◌, arith, [], ◌∷◌, ◌++◌, List, length, none, false,
}
use real_time_cyclic.Common.{change_slave_name}
use real_time_cyclic.Common.Text.{c_string, strcpy, print_unsigned}
use real_time_cyclic.Common.Text.Laws.{strcpy_overflow}
use real_time_cyclic.Os.{Os, fault, s_to_m_request, m_to_s_request}
use real_time_cyclic.Slave.Node.{Node}
use real_time_cyclic.Slave.Name.{handle_change_name_slave_request, number_name, numbered}
use real_time_cyclic.Slave.Requests.{handle_master_request, dispatch_master_request}
use real_time_cyclic.Slave.Signals.{choose_handler}

length-append : (s t : List ℕ) → length (s ++ t) ≡ length s + length t
length-append [] t = ground arith
length-append (c ∷ s) t = ground (arith, length-append s t)

length-numbered : (s : List ℕ) → length (numbered s 1) ≡ length s + 2
unfolding numbered print_unsigned
length-numbered s = length-append s (b'_' ∷ b'1' ∷ [])

too_long : (buf s : List ℕ) → length buf ≡ 128 → 126 ≤ length s → strcpy buf (numbered s 1) ≡ none
too_long buf s size long =
    strcpy_overflow buf (numbered s 1)
      (λ fits. absurd (omega (arith, fits, size, long, length-numbered s)))

-- A slave that was not renamed before and whose name in the segment has 126 or 127 bytes, which fit
-- its buffer of 128, writes past the end of its own buffer of 128 bytes when the master asks it to
-- change the name, with no answer of the master outstanding and no failing look at a semaphore: "_1"
-- and the NUL do not fit any more.
pub rename_overflow :
    (os : Os) (n : Node)
    → os.sem_getvalue_fails s_to_m_request ≡ false
    → os.sem_getvalue_fails m_to_s_request ≡ false
    → n.seg.sem_s_to_m_request ≢ 0
    → n.seg.sem_m_to_s_request ≡ 0
    → n.seg.req_m_to_s ≡ change_slave_name
    → n.self.change_name_idx ≡ 0
    → length n.self.name ≡ 128
    → 126 ≤ length (c_string n.seg.name)
    → choose_handler os n ≡ fault
unfolding choose_handler handle_master_request dispatch_master_request
    handle_change_name_slave_request number_name
rename_overflow os n value value' free asked req first size long = ground (
  arith,
  value,
  value',
  free,
  asked,
  req,
  first,
  too_long n.self.name (c_string n.seg.name) size long,
)
