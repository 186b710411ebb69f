-- ===== src/Slave/Threads/Parts.antt =====
-- What a part of the cycle thread does to what the two threads of the slave share.
use real_time_cyclic.Prelude.{ℕ, zero, suc, ◌+◌, ◌≡◌, ◌≢◌, arith, ℤ, none}
use real_time_cyclic.Os.{Os, Outcome, M, done, blocked, fault, Returns, Returns-bind, ◌>>◌, pure}
use real_time_cyclic.Slave.Node.{Node, set_error_seg, sem_post, sem_wait, kill}
use real_time_cyclic.Slave.Cycle.{
  Timeval, fill_parameters, calculate_parameter_communication_interval,
}
use real_time_cyclic.Slave.Threads.{
  CyclePc, waiting, entered, filling, posting, measuring, polling, testing, signalling, finishing,
  ended, cycle_part, through_pointer, poll, after_try, Works,
}
use real_time_cyclic.Slave.Threads.Handled.{Leaving, Same}

-- The thread holds `allow_communication_cycle`.
abbrev pub in_section : CyclePc → ℕ
in_section (entered _) = 1
in_section filling = 1
in_section posting = 1
in_section _ = 0

-- The token is where the thread left it.
pub record Conserves (pc : CyclePc) (n : Node) (pc' : CyclePc) (t : Node) : Type 0 where
  pub tokens : (t.self.allow_cycle + in_section pc') ≡ (n.self.allow_cycle + in_section pc)
  pub shared : Leaving n t.self.allow_cycle n.seg.cycle_started n.self.shmseg t

-- A part that ends leaves this.
abbrev pub Ends : {A : Type 0} → (A → Node → Type 0) → Outcome Node A → Type 0
Ends P (done pc t) = P pc t
Ends P (blocked t) = Unit
Ends P fault = Unit

through-Ends :
    (P : CyclePc → Node → Type 0) (m : M Node CyclePc) (n : Node)
    → Ends P (m n)
    → Ends P (through_pointer m n)
unfolding through_pointer
through-Ends P m n h = ground (arith, h)

Returns-Ends : (P : CyclePc → Node → Type 0) (o : Outcome Node CyclePc) → Returns P o → Ends P o
Returns-Ends P (done pc t) h = h
Returns-Ends P (blocked t) h = tt
Returns-Ends P fault h = tt

module _ (os : Os) (rand_value : ℕ) (now : Timeval) (w : Works os) (n : Node) where
  fill-Same : Returns (λ _ t. Same n t) (fill_parameters rand_value n)
  unfolding fill_parameters
  fill-Same = ground arith

  calculate-Same :
      (t : Node)
      → Same n t
      → Returns (λ _ u. Same n u) (calculate_parameter_communication_interval now t)
  unfolding calculate_parameter_communication_interval set_error_seg
  calculate-Same t k = ground (arith, k)

  abbrev fill : M Node CyclePc
  fill = do fill_parameters rand_value; calculate_parameter_communication_interval now; pure posting

  fill-Conserves : Returns (Conserves filling n) (fill n)
  fill-Conserves =
      Returns-bind (λ _ t. Same n t) (Conserves filling n) (fill_parameters rand_value) _ n
        (λ _ t k.
          Returns-bind (λ _ u. Same n u) (Conserves filling n)
            (calculate_parameter_communication_interval now) _ t (λ _ u j. ground (arith, j))
            (calculate-Same t k))
        fill-Same

  poll-Conserves :
      (left : ℕ) (segment : ℤ) → Ends (Conserves (polling left segment) n) (poll left segment n)
  unfolding poll after_try set_error_seg
  poll-Conserves zero segment = ground arith
  poll-Conserves (suc left) segment = ground arith

  pub cycle_part-Conserves :
      (pc : CyclePc) → Ends (Conserves pc n) (cycle_part os rand_value now pc n)
  unfolding cycle_part sem_wait sem_post kill set_error_seg through_pointer
  cycle_part-Conserves (waiting sleep_us) = ground (arith, w.waits)
  cycle_part-Conserves (entered sleep_us) = ground (arith, w.sleeps)
  cycle_part-Conserves filling =
      through-Ends (Conserves filling n) fill n
        (Returns-Ends (Conserves filling n) (fill n) fill-Conserves)
  cycle_part-Conserves posting = ground (arith, w.posts)
  cycle_part-Conserves measuring = ground arith
  cycle_part-Conserves (polling left segment) = ground (arith, poll-Conserves left segment)
  cycle_part-Conserves (testing segment) = ground arith
  cycle_part-Conserves (signalling segment) = ground arith
  cycle_part-Conserves (finishing waited) = ground arith
  cycle_part-Conserves ended = ground arith

  pub section_part-Runs :
      (pc : CyclePc)
      → n.self.shmseg ≢ none
      → in_section pc ≡ 1
      → Returns (Conserves pc n) (cycle_part os rand_value now pc n)
  unfolding cycle_part sem_wait sem_post kill set_error_seg through_pointer
  section_part-Runs (entered sleep_us) p e = ground (arith, w.sleeps, p)
  section_part-Runs filling p e = ground (arith, p, fill-Conserves)
  section_part-Runs posting p e = ground (arith, w.posts)
  section_part-Runs _ p e = absurd (omega (arith, e))
