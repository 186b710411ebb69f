-- ===== src/Slave/Cycle.antt =====
-- src/slave.c: one round of the communication cycle thread, and the wait for the master's answer.
pub mod Wait
pub mod Rounds
pub mod Signal
use real_time_cyclic.Prelude.{
  ℕ, zero, suc, ◌+◌, ◌-◌, ◌*◌, ◌/◌, ◌%◌, ◌==◌, ltb, ℤ, pos, negsuc, ◌+ℤ◌, ◌-ℤ◌, ◌==ℤ◌, ltb_ℤ, false,
  Bool, ◌&&◌, List, set, if◌then◌else◌,
}
use real_time_cyclic.Common.{
  error_not_set_communication_cycle, exceeded_cycle, usleep_failed, sem_post_failed,
  master_failed_to_respond, signal_master_parameter, sigusr1,
}
use real_time_cyclic.Common.Params.{
  has_bit, string_parameter_bit, int_parameter_bit, bool_parameter_bit,
}
use real_time_cyclic.Os.{
  Os, s_to_m_request, allow_communication_cycle, M, ◌>>=◌, ◌>>◌, pure, get, when,
  given◌run◌otherwise◌,
}
use real_time_cyclic.Slave.Requests.{handle_stop_cycle_slave_request}
use real_time_cyclic.Slave.Node.{Node, update_seg, update_self, set_error, kill, sem_wait, sem_post}

abbrev pub timeout_segments : ℕ
timeout_segments = 20

-- `long / 20`, truncated towards zero.
unfoldable pub div_segments : ℤ → ℤ
div_segments (pos n) = pos (n / timeout_segments)
div_segments (negsuc n) = pos 0 -ℤ pos (suc n / timeout_segments)

-- What `gettimeofday` returns.
pub record Timeval : Type 0 where
  pub tv_sec : ℕ
  pub tv_usec : ℕ

-- A multiple of a non-negative difference of seconds is written out, since the clock runs forward.
unfoldable pub elapsed_us : Timeval → ℕ → ℕ → ℤ
unfolding ◌+ℤ◌ ◌-ℤ◌
elapsed_us now last_sec last_usec =
    pos (now.tv_sec * 1000000) -ℤ pos (last_sec * 1000000) +ℤ pos now.tv_usec -ℤ pos last_usec

-- The comparison of doubles `excess / 1000.0 > cycle / 2000.0` is that of the integers
-- `2 * excess > cycle`.
unfoldable pub calculate_parameter_communication_interval : Timeval → M Node (Unit {0})
unfolding elapsed_us
calculate_parameter_communication_interval now = do
  n ← get
  given n.self.last_sec == 0 && n.self.last_usec == 0
      run update_self (λ s. record s { last_sec = now.tv_sec; last_usec = now.tv_usec })
      otherwise (do
        let excess = elapsed_us now n.self.last_sec n.self.last_usec -ℤ n.seg.communication_cycle_us
        update_self (λ s. record s {
          last_sec = now.tv_sec;
          last_usec = now.tv_usec;
          excess_interval_us = excess;
        })
        when (ltb_ℤ n.seg.communication_cycle_us (excess +ℤ excess))
            (set_error (exceeded_cycle excess)))

-- The new values of the parameters, from one call of `rand`.
unfoldable pub fill_string : ℕ → List ℕ → List ℕ
fill_string rand_value buf =
    let chr_rand = b'A' + rand_value % 26 in
    set (set (set buf 0 chr_rand) 1 (chr_rand + 1)) 2 (chr_rand + 2)

unfoldable pub fill_parameters : ℕ → M Node (Unit {0})
fill_parameters rand_value = do
  n ← get
  let requested = n.seg.requested_parameters
  when (has_bit requested string_parameter_bit)
      (update_seg (λ g. record g { string_value = fill_string rand_value g.string_value }))
  when (has_bit requested int_parameter_bit)
      (update_seg (λ g. record g { int_value = pos rand_value }))
  when (has_bit requested bool_parameter_bit)
      (update_seg (λ g. record g { bool_value = rand_value % 2 }))

-- The loop on `sem_trywait`: `posts k` is how often the other threads post the semaphore during the
-- k-th sleep. The fuel is the number of sleeps that are left; when none is, the loop is left, too.
unfoldable pub await_master : (ℕ → ℕ) → ℕ → M Node (Unit {0})
await_master posts zero n =
    if ltb 0 n.seg.sem_s_to_m_request
    then update_seg (λ g. record g { sem_s_to_m_request = g.sem_s_to_m_request - 1 }) n
    else set_error master_failed_to_respond n
await_master posts (suc left) n =
    let rest = await_master posts left (record n {
      seg = record (n.seg) {
        sem_s_to_m_request = n.seg.sem_s_to_m_request + posts (timeout_segments - suc left);
      };
    }) in
    if ltb 0 n.seg.sem_s_to_m_request
    then update_seg (λ g. record g { sem_s_to_m_request = g.sem_s_to_m_request - 1 }) n
    else rest

-- What the other threads do while the slave waits for the master: how often each sleep sees the
-- semaphore of the request posted, and whether a request to stop the cycle is handled.
pub record Meanwhile : Type 0 where
  pub posts : ℕ → ℕ
  pub stops : Bool

abbrev pub nothing : Meanwhile
nothing = record { posts = λ k. 0; stops = false }

-- The other thread handles a request to stop, unless it would sleep.
unfoldable pub stop_meanwhile : Os → Bool → M Node (Unit {0})
stop_meanwhile os stops = do
  n ← get
  when (stops && ltb 0 n.self.allow_cycle) (handle_stop_cycle_slave_request os)

-- From `sem_getvalue` on.
unfoldable pub ask_master : Os → ℤ → M Node ℤ
unfolding kill sem_post
ask_master os time_segment_us =
    given os.sem_getvalue_fails allow_communication_cycle run pure (pos 0) otherwise (do
      m ← get
      given m.self.allow_cycle == 0
          run (do failed ← sem_post os s_to_m_request; pure (pos 0))
          otherwise (do
            update_seg (λ g. record g { req_s_to_m = signal_master_parameter })
            failed ← kill os m.master_pid sigusr1
            pure time_segment_us))

-- Returns what the source returns, which is the length of a segment or 0.
unfoldable pub send_master_signal_master_parameter_request : Os → Meanwhile → M Node ℤ
unfolding stop_meanwhile ask_master
send_master_signal_master_parameter_request os meanwhile = do
  n ← get
  let time_segment_us = div_segments n.seg.communication_cycle_us
  await_master meanwhile.posts timeout_segments
  stop_meanwhile os meanwhile.stops
  ask_master os time_segment_us

-- How a round ends: the thread ends, or goes on with this value of `sleep_us`.
pub data Next : Type 0 where
  thread_ends : Next
  next_round : ℤ → Next

-- From the call of `rand` to the end of the round.
unfoldable pub communicate : Os → Meanwhile → ℕ → Timeval → M Node Next
unfolding sem_post
communicate os meanwhile rand_value now = do
  fill_parameters rand_value
  calculate_parameter_communication_interval now
  failed ← sem_post os allow_communication_cycle
  when failed (do set_error sem_post_failed; update_seg (λ g. record g { cycle_started = false }))
  waited ← send_master_signal_master_parameter_request os meanwhile
  n ← get
  pure (next_round (n.seg.communication_cycle_us -ℤ waited))

unfoldable pub cycle_round : Os → Meanwhile → ℕ → Timeval → ℤ → M Node Next
unfolding sem_wait communicate
cycle_round os meanwhile rand_value now sleep_us = do
  failed ← sem_wait os allow_communication_cycle
  given failed run pure thread_ends otherwise (do
    n ← get
    let sleep =
        if sleep_us ==ℤ error_not_set_communication_cycle
        then n.seg.communication_cycle_us
        else sleep_us
    given ltb_ℤ (pos 0) sleep && os.usleep_fails
        run (do set_error usleep_failed; pure (next_round sleep))
        otherwise communicate os meanwhile rand_value now)
