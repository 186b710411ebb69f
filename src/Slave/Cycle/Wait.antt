-- ===== src/Slave/Cycle/Wait.antt =====
-- The slave's wait for the master's answer, and the end of a cycle.
use real_time_cyclic.Prelude.{
  ℕ, zero, suc, ◌+◌, ◌-◌, ◌<◌, ◌≤◌, ◌≡◌, ◌⊎◌, inl, inr, refl, true, false, arith, ℤ, pos, ◌==◌,
  ==_iff, subst, Bool-cases,
}
use real_time_cyclic.Common.{master_failed_to_respond, usleep_failed}
use real_time_cyclic.Os.{Os, Returns, done, blocked, allow_communication_cycle}
use real_time_cyclic.Slave.Node.{Node, set_error_seg, sem_wait}
use real_time_cyclic.Slave.Cycle.{
  Meanwhile, Timeval, next_round, timeout_segments, await_master, cycle_round,
}

-- The errors of the segment are as before.
abbrev pub NoError : Node → Node → Type 0
NoError n n' =
    (n'.seg.shmseg_error ≡ n.seg.shmseg_error)
    × (n'.seg.shmseg_error_current_size ≡ n.seg.shmseg_error_current_size)

-- A post comes during one of the sleeps that are left.
abbrev pub Posted : (ℕ → ℕ) → ℕ → Type 0
Posted posts left = (k : ℕ) × (timeout_segments - left ≤ k) × (k < timeout_segments) × (0 < posts k)

now_or_later :
    (posts : ℕ → ℕ) (left : ℕ)
    → suc left ≤ timeout_segments
    → Posted posts (suc left)
    → (0 < posts (timeout_segments - suc left)) ⊎ Posted posts left
now_or_later posts left le (k, from, to, post) =
    elim (Bool-cases (k == (timeout_segments - suc left))) [
      | inl e ↦ inl (subst (λ j. 0 < posts j) ((==_iff _ _).0 e) post)
      | inr e ↦ inr (k, ground (arith, from, le, e), to, post)
    ]

answered_from :
    (posts : ℕ → ℕ) (left : ℕ) (n : Node)
    → left ≤ timeout_segments
    → (0 < n.seg.sem_s_to_m_request) ⊎ Posted posts left
    → Returns (λ _ n'. NoError n n') (await_master posts left n)
unfolding await_master
answered_from posts zero n le (inl h) = ground (arith, h)
answered_from posts zero n le (inr p) = absurd (omega (arith, p.1, p.2))
answered_from posts (suc left) n le (inl h) = ground (arith, h)
answered_from posts (suc left) n le (inr p) =
    let u : Node = record n {
      seg = record (n.seg) {
        sem_s_to_m_request = n.seg.sem_s_to_m_request + posts (timeout_segments - suc left);
      };
    } in
    let rest : Returns (λ _ n'. NoError n n') (await_master posts left u) =
      answered_from posts left u (omega (arith, le)) (elim (now_or_later posts left le p) [
        | inl now ↦ inl (omega (arith, now))
        | inr later ↦ inr later
      ]) in
    ground (arith, rest)

silent_from :
    (posts : ℕ → ℕ) (left : ℕ) (n : Node)
    → left ≤ timeout_segments
    → n.seg.sem_s_to_m_request ≡ 0
    → ((k : ℕ) → k < timeout_segments → posts k ≡ 0)
    → await_master posts left n
      ≡ done tt (record n { seg = set_error_seg master_failed_to_respond n.seg })
unfolding await_master
silent_from posts zero n le e none = ground (arith, e)
silent_from posts (suc left) n le e none =
    ground
      (arith, e, none (timeout_segments - suc left) (omega (arith, le)), silent_from posts left n)

-- The slave waits for the master's answer during 20 sleeps: if the semaphore is free, or is posted
-- during one of the sleeps, the wait ends without an error; if it is not, the wait ends, too, with
-- the error that the master did not respond, and nothing else has changed.
pub await_master-ends :
    (posts : ℕ → ℕ) (n : Node)
    → (((0 < n.seg.sem_s_to_m_request) ⊎ Posted posts timeout_segments)
        → Returns (λ _ n'. NoError n n') (await_master posts timeout_segments n))
      × (n.seg.sem_s_to_m_request ≡ 0
          → ((k : ℕ) → k < timeout_segments → posts k ≡ 0)
          → await_master posts timeout_segments n
            ≡ done tt (record n { seg = set_error_seg master_failed_to_respond n.seg }))
await_master-ends posts n = (
  answered_from posts timeout_segments n (omega arith),
  silent_from posts timeout_segments n (omega arith),
)

-- The slave when `usleep` failed in a round.
abbrev late : Node → Node
late n = record n {
  self = record (n.self) { allow_cycle = 0 };
  seg = set_error_seg usleep_failed n.seg;
}

late-round :
    (os : Os) (posts : Meanwhile) (rand_value : ℕ) (now : Timeval) (k : ℕ) (n : Node)
    → n.self.allow_cycle ≡ 1
    → os.sem_wait_fails allow_communication_cycle ≡ false
    → os.usleep_fails ≡ true
    → cycle_round os posts rand_value now (pos (suc k)) n ≡ done (next_round (pos (suc k))) (late n)
unfolding cycle_round sem_wait
late-round os posts rand_value now k n one wait sleep = ground (arith, one, wait, sleep)

-- When `usleep` fails in a round of a running cycle, the round ends without giving
-- `allow_communication_cycle` back: the cycle still counts as started, and whenever the thread waits
-- for its next round it sleeps.
pub usleep_failure :
    (os : Os) (posts : Meanwhile) (rand_value : ℕ) (now : Timeval) (k : ℕ) (n : Node)
    → n.self.allow_cycle ≡ 1
    → os.sem_wait_fails allow_communication_cycle ≡ false
    → os.usleep_fails ≡ true
    → Returns
        (λ r n'.
          (r ≡ next_round (pos (suc k)))
          × (n'.seg.cycle_started ≡ n.seg.cycle_started)
          × ((posts' : Meanwhile) (rand' : ℕ) (now' : Timeval) (sleep' : ℤ)
              → cycle_round os posts' rand' now' sleep' n' ≡ blocked n'))
        (cycle_round os posts rand_value now (pos (suc k)) n)
usleep_failure os posts rand_value now k n one wait sleep =
    rw (late-round os posts rand_value now k n one wait sleep) (
      refl,
      unfold set_error_seg in ground arith,
      λ posts' rand' now' sleep'. unfold cycle_round sem_wait in ground (arith, wait),
    )
