-- ===== src/Master/Processor.antt =====
-- src/master.c: the detached thread that serves one slave.
pub mod Invariant
pub mod Admit
use real_time_cyclic.Prelude.{
  ℕ, ◌-◌, ◌==◌, ℤ, Bool, true, not, false, List, ◌∷◌, get_or, set, if◌then◌else◌,
}
use real_time_cyclic.Common.{Shmseg, Ret, rtc_success, rtc_error, zeroed_shmseg}
use real_time_cyclic.Table.{Slot, at, no_idx, out_of_bounds, assign_idx, get_assigned_idx}
use real_time_cyclic.Os.{
  Os, s_to_m_request, m_to_s_request, sig_semaphore, M, Outcome, done, blocked, ◌>>=◌, ◌>>◌, pure,
  get, modify, crash, attempt_wait, given◌run◌otherwise◌,
}
use real_time_cyclic.Master.Link.{
  Link, LogEntry, cant_assign_idx, failed_create_idx, already_connected, sem_wait_failed,
  sem_getvalue_failed, unhandled_signal, pthread_failed,
}
use real_time_cyclic.Master.Send.{send_connect_slave_request}
use real_time_cyclic.Master.Request.{
  slave_request_has_errors, handle_slave_request_errors, handle_slave_request,
}
use real_time_cyclic.Master.Reply.{handle_slave_response}
use real_time_cyclic.Master.State.{Master, segment, on_segment, must_change_name}

abbrev pub log_error : LogEntry → M Master (Unit {0})
log_error e = modify λ m. record m { log = e ∷ m.log }

-- What becomes of the thread: it has returned, or it goes round its loop for a segment.
pub data Thread : Type 0 where
  ended : Thread
  serving : ℕ → Thread

abbrev end_thread : LogEntry → M Master Thread
end_thread e = do log_error e; pure ended

abbrev pub after_connect : ℕ → Ret → M Master Thread
after_connect i rtc_success = pure (serving i)
after_connect i rtc_error = pure ended

-- `self.shmp->slave_shmseg[i].pid = pid`.
unfoldable pub claim : ℕ → ℤ → Master → Master
claim i pid m = record m {
  shm = record (m.shm) {
    slave_shmseg = set m.shm.slave_shmseg i (record (segment i m) { pid = pid });
  };
}

module _ (os : Os) where
  -- The thread after its pid was not found, given the free index.
  unfoldable pub claim_slot : ℤ → Slot → M Master Thread
  claim_slot pid no_idx = do log_error (cant_assign_idx pid); end_thread (failed_create_idx pid)
  claim_slot pid out_of_bounds = crash
  claim_slot pid (at i) = do
    modify (claim i pid)
    ret ← on_segment i (send_connect_slave_request os)
    after_connect i ret

  -- The thread after the lookup of its pid.
  unfoldable pub admit_slot : ℤ → Slot → M Master Thread
  admit_slot pid (at i) = end_thread (already_connected pid)
  admit_slot pid out_of_bounds = crash
  admit_slot pid no_idx = do
    m ← get
    claim_slot pid (assign_idx (λ g. g.pid) zeroed_shmseg pid m.shm.slave_shmseg)

  -- The new thread as far as its loop: it claims a free segment and sends the first request.
  unfoldable pub admit : ℤ → M Master Thread
  admit pid = do
    m ← get
    admit_slot pid (get_assigned_idx (λ g. g.pid) zeroed_shmseg pid m.shm.slave_shmseg)

  -- `sem_wait(&self.sig_semaphore[i])`.
  unfoldable pub wait_signal : ℕ → M Master Bool
  wait_signal i m =
      attempt_wait (os.sem_wait_fails sig_semaphore) (get_or m.sig_semaphore i 0)
        (λ v n. record n { sig_semaphore = set n.sig_semaphore i v }) m

  abbrev after_response : ℕ → Ret → M Master Thread
  after_response i rtc_success = pure (serving i)
  after_response i rtc_error = pure ended

  -- The rest of the loop's body, after the errors were logged.
  unfoldable pub choose_handler : ℕ → M Master Thread
  choose_handler i = do
    m ← get
    given os.sem_getvalue_fails s_to_m_request
        run end_thread sem_getvalue_failed
        otherwise given (segment i m).sem_s_to_m_request == 0
        run (do on_segment i (handle_slave_request os); pure (serving i))
        otherwise given os.sem_getvalue_fails m_to_s_request
        run end_thread sem_getvalue_failed
        otherwise given (segment i m).sem_m_to_s_request == 0
        run (do
          ret ← on_segment i (handle_slave_response os (must_change_name i m))
          after_response i ret)
        otherwise (do log_error unhandled_signal; pure (serving i))

  -- The body of the loop.
  unfoldable pub process_signal : ℕ → M Master Thread
  process_signal i = do
    failed ← wait_signal i
    given failed run end_thread sem_wait_failed otherwise (do
      m ← get
      given slave_request_has_errors (segment i m)
          run (do on_segment i handle_slave_request_errors; choose_handler i)
          otherwise choose_handler i)

  -- Creation of the thread for a pid.
  unfoldable pub create_slave_processor_detached_thread : ℤ → M Master Ret
  create_slave_processor_detached_thread pid =
      given os.attr_init_fails
      run (do log_error pthread_failed; pure rtc_error)
      otherwise given os.attr_setdetachstate_fails
      run (do log_error pthread_failed; pure rtc_error)
      otherwise given os.pthread_create_fails
      run (do log_error pthread_failed; pure rtc_error)
      otherwise (do modify (λ m. record m { threads = pid ∷ m.threads }); pure rtc_success)
