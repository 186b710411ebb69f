-- ===== src/Slave/Name.antt =====
-- src/slave.c: `handle_change_name_slave_request`, which makes a slave's name unique by a number.
pub mod Padding
pub mod Erase
pub mod Rename
pub mod Overflow
use real_time_cyclic.Prelude.{
  ℕ, zero, suc, ◌+◌, ◌%◌, ◌^◌, ◌==◌, ltb, List, ◌∷◌, ◌++◌, get_or, set, if◌then◌else◌,
}
use real_time_cyclic.Common.{name_index_overflow}
use real_time_cyclic.Common.Text.{c_string, strcpy, print_unsigned}
use real_time_cyclic.Os.{Os, M, ◌>>=◌, ◌>>◌, pure, get, or_crash, when, given◌run◌otherwise◌}
use real_time_cyclic.Slave.Node.{
  Node, update_seg, update_self, set_error, set_error_seg, send_master_ack_response,
  send_master_nack_response,
}

-- `for (i = …; i > 0; --i)`: erases from index i of `buf` down to the last '_' of `name`, both
-- included. The source runs it on both copies of the name at once.
unfoldable pub erase_number : ℕ → List ℕ → List ℕ → List ℕ
erase_number zero name buf = buf
erase_number (suc i) name buf =
    let rest = erase_number i (set name (suc i) 0) (set buf (suc i) 0) in
    if get_or name (suc i) 0 == b'_' then set buf (suc i) 0 else rest

-- "%s_%u"
unfoldable pub numbered : List ℕ → ℕ → List ℕ
numbered name idx = name ++ b'_' ∷ print_unsigned idx

unfoldable pub erase_names : M Node (Unit {0})
erase_names = do
  n ← get
  let name = n.self.name
  update_self (λ s. record s { name = erase_number 127 name name })
  update_seg (λ g. record g { name = erase_number 127 name g.name })

-- From the increment of the index on.
unfoldable pub number_name : Os → M Node (Unit {0})
number_name os = do
  update_self (λ s. record s { change_name_idx = (s.change_name_idx + 1) % 2 ^ 32 })
  n ← get
  name ← or_crash (strcpy n.self.name (numbered (c_string n.seg.name) n.self.change_name_idx)) pure
  update_self (λ s. record s { name = name })
  shm_name ← or_crash (strcpy n.seg.name (c_string name)) pure
  update_seg (λ g. record g { name = shm_name })
  send_master_ack_response os

unfoldable pub handle_change_name_slave_request : Os → M Node (Unit {0})
handle_change_name_slave_request os = do
  n ← get
  let prev_change_name_idx = n.self.change_name_idx
  when (ltb 0 n.self.change_name_idx) erase_names
  given ltb ((prev_change_name_idx + 1) % 2 ^ 32) n.self.change_name_idx
      run (do set_error name_index_overflow; send_master_nack_response os)
      otherwise number_name os
