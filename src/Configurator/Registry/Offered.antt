-- ===== src/Configurator/Registry/Offered.antt =====
-- What the menu of src/configurator.c offers: slaves that are registered.
use real_time_cyclic.Prelude.{
  ℕ, suc, ◌<◌, ◌≡◌, ◌≢◌, sym, ◌∙◌, inl, inr, arith, true, Bool-cases, List, [], ◌∷◌, some, ℤ, pos,
  ◌==ℤ◌, ==ℤ_iff, get_or, length, not, ◌&&◌,
}
use real_time_cyclic.Common.{no_pid, max_slaves}
use real_time_cyclic.Table.Exact.{get_assigned_idx_exact}
use real_time_cyclic.Configurator.{CreatedSlave, blank, Config}
use real_time_cyclic.Configurator.Menu.{disconnected_pids, is_valid_pid}
use real_time_cyclic.Configurator.Registry.{IsSound, created}

-- A pid that is offered is the pid of an entry.
offered :
    (pid : ℤ) (ss : List CreatedSlave)
    → is_valid_pid pid (disconnected_pids ss) ≡ true
    → (j : ℕ) × (j < length ss) × ((get_or ss j blank).pid ≡ pid) × (pid ≢ no_pid)
unfolding is_valid_pid disconnected_pids
offered pid [] h = absurd (ground arith)
offered pid (s ∷ ss) h = elim (Bool-cases (pid ==ℤ s.pid && not (s.pid ==ℤ no_pid))) [
  | inl here ↦ (
    0,
    omega arith,
    ground (arith, ==ℤ_iff pid s.pid, here),
    ground (arith, ==ℤ_iff s.pid no_pid, ==ℤ_iff pid s.pid, here),
  )
  | inr away ↦
      let later = offered pid ss (ground (arith, h, away)) in
      (suc later.0, omega (arith, later.1), later.2, later.3)
]

-- Where an entry has a pid, the pid is in the map.
created_at :
    (c : Config) (j p : ℕ)
    → j < max_slaves
    → (get_or c.created_slave j blank).pid ≡ pos p
    → (s : CreatedSlave) × (created c p ≡ some s)
created_at c j p lt e = elim (get_assigned_idx_exact (λ s. s.pid) blank p c.created_slave) [
  | inl (i, found, hit, same) ↦ (get_or c.created_slave i blank, ground (arith, found))
  | inr (miss, absent) ↦ absurd (absent j lt e)
]

-- What a user may choose is a slave that is registered.
pub registered :
    (c : Config) (pid : ℤ)
    → IsSound c
    → is_valid_pid pid (disconnected_pids c.created_slave) ≡ true
    → (p : ℕ) × (s : CreatedSlave) × (pid ≡ pos p) × (created c p ≡ some s)
registered c pid ok h =
    let entry = offered pid c.created_slave h in
    let lt : entry.0 < max_slaves = omega (arith, entry.1, ok.full) in
    elim (ok.pids entry.0 lt) [
      | inl free ↦ absurd (entry.3 (sym entry.2 ∙ free))
      | inr (p, e) ↦
          let known : (s : CreatedSlave) × (created c p ≡ some s) = created_at c entry.0 p lt e in
          (p, known.0, sym entry.2 ∙ e, known.1)
    ]
