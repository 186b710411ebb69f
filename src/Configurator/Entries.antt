-- ===== src/Configurator/Entries.antt =====
-- Lists of created slaves of src/configurator.c: how many are taken, and what pids they have.
use real_time_cyclic.Prelude.{
  ℕ, zero, suc, ◌<◌, ◌≤◌, ◌≡◌, refl, sym, ap, ◌∙◌, subst, ◌⊎◌, ◌≢◌, ℕ_discrete, get_or-set_self,
  get_or-set_ne, List, [], ◌∷◌, arith, get_or, set, length, pos, ◌==ℤ◌, ==ℤ_iff, ==ℤ_ne,
  if◌then◌else◌,
}
use real_time_cyclic.Common.{max_slaves, no_pid}
use real_time_cyclic.Configurator.{CreatedSlave, blank}

-- Entries with a pid.
unfoldable pub taken : List CreatedSlave → ℕ
taken [] = 0
taken (s ∷ ss) = if s.pid ==ℤ no_pid then taken ss else suc (taken ss)

-- Overwriting an entry adds one at most, none if there was one before, and none by a blank entry.
pub taken-set :
    (ss : List CreatedSlave) (i : ℕ) (s : CreatedSlave)
    → (taken (set ss i s) ≤ suc (taken ss))
      × (s.pid ≡ no_pid → taken (set ss i s) ≤ taken ss)
      × ((get_or ss i blank).pid ≢ no_pid → taken (set ss i s) ≤ taken ss)
unfolding taken
taken-set [] i s = (omega arith, λ e. omega arith, λ e. omega arith)
taken-set (t ∷ ts) zero s = ground (arith, ==ℤ_iff t.pid no_pid, ==ℤ_iff s.pid no_pid)
taken-set (t ∷ ts) (suc i) s = ground (arith, taken-set ts i s)

-- A pid in a blank entry is one more.
pub taken-set-blank :
    (ss : List CreatedSlave) (i : ℕ) (s : CreatedSlave)
    → i < length ss
    → (get_or ss i blank).pid ≡ no_pid
    → s.pid ≢ no_pid
    → taken (set ss i s) ≡ suc (taken ss)
unfolding taken
taken-set-blank [] i s lt old new = absurd (omega arith)
taken-set-blank (t ∷ ts) zero s lt old new =
    ground (arith, ==ℤ_iff t.pid no_pid, ==ℤ_iff s.pid no_pid)
taken-set-blank (t ∷ ts) (suc i) s lt old new =
    ground (arith, taken-set-blank ts i s (omega arith) old new)

pub taken-le : (ss : List CreatedSlave) → taken ss ≤ length ss
unfolding taken
taken-le [] = omega arith
taken-le (s ∷ ss) = ground (arith, taken-le ss)

-- In a full table every entry is taken.
pub taken_all :
    (ss : List CreatedSlave)
    → ((j : ℕ) → j < length ss → (get_or ss j blank).pid ≢ no_pid)
    → taken ss ≡ length ss
unfolding taken
taken_all [] h = refl
taken_all (s ∷ ss) h =
    let rest : taken ss ≡ length ss = taken_all ss (λ j lt. h (suc j) (omega arith)) in
    ground (arith, rest, ==ℤ_ne s.pid no_pid (h 0 (omega arith)))

-- An entry is no slave or has a pid of a process.
abbrev pub HasPid : CreatedSlave → Type 0
HasPid s = (s.pid ≡ no_pid) ⊎ ((p : ℕ) × (s.pid ≡ pos p))

pub set-HasPid :
    (ss : List CreatedSlave) (i : ℕ) (s : CreatedSlave)
    → length ss ≡ max_slaves
    → i < max_slaves
    → HasPid s
    → ((j : ℕ) → j < max_slaves → HasPid (get_or ss j blank))
    → (j : ℕ) → j < max_slaves
    → HasPid (get_or (set ss i s) j blank)
set-HasPid ss i s full lt h old j hj = elim (ℕ_discrete i j) [
  | yes e ↦
      subst HasPid
        (sym (
          ap (λ k. get_or (set ss i s) k blank) (sym e)
          ∙ get_or-set_self ss i s blank (omega (arith, full))))
        h
  | no n ↦ subst HasPid (sym (get_or-set_ne ss i j s blank n)) (old j hj)
]
