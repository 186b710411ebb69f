-- ===== src/Master/State/Names.antt =====
-- What `must_change_name` decides.
use real_time_cyclic.Prelude.{ℕ, zero, suc, ◌<◌, ◌≡◌, ◌≢◌, false, List, get_or, arith, ==ℤ_iff}
use real_time_cyclic.Common.{Shmseg, zeroed_shmseg, no_pid}
use real_time_cyclic.Common.Text.{c_string}
use real_time_cyclic.Common.Text.Laws.{streq_iff}
use real_time_cyclic.Master.State.{name_taken}

-- The name at no other taken index is the one that is asked for.
pub name_taken-false :
    (table : List Shmseg) (idx : ℕ) (name : List ℕ) (n : ℕ)
    → name_taken table idx name n ≡ false
    → (j : ℕ) → j < n
    → j ≢ idx
    → (get_or table j zeroed_shmseg).pid ≢ no_pid
    → c_string name ≢ c_string (get_or table j zeroed_shmseg).name
unfolding name_taken
name_taken-false table idx name zero e j lt ne taken same = elim lt [ ]
name_taken-false table idx name (suc n) e j lt ne taken same = ground (
  arith,
  streq_iff (c_string name) (c_string (get_or table n zeroed_shmseg).name),
  ==ℤ_iff (get_or table n zeroed_shmseg).pid no_pid,
  λ (h : j < n). name_taken-false table idx name n (ground arith) j h ne taken same,
)
