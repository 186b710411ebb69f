-- ===== src/Master/Link.antt =====
-- src/master.c: what a handler that is given one `shmseg_t *` reads and writes, the primitive calls
-- on it, and `init_slave_shmseg_shared_memory` and `reset_slave_shmseg`.
use real_time_cyclic.Prelude.{ℕ, zero, suc, ◌+◌, ℤ, Bool, List, ◌∷◌, replicate}
use real_time_cyclic.Common.{
  Shmseg, ControlShm, Signal, ErrorString, empty_error, zeroed_shmseg, no_pid, string_size,
  shmseg_error_size, int_value_undefined, bool_value_undefined, to_u8, Request,
  error_not_set_communication_cycle,
}
use real_time_cyclic.Os.{
  Os, Sem, s_to_m_request, m_to_s_request, M, ◌>>=◌, ◌>>◌, modify, when, attempt, attempt_wait,
}

-- The calls of `log_error`. The debugging and information messages are left out.
pub data LogEntry : Type 0 where
  cant_assign_idx failed_create_idx already_connected : ℤ → LogEntry
  sem_wait_failed sem_post_failed sem_getvalue_failed : LogEntry
  unhandled_signal pthread_failed create_thread_failed : LogEntry
  kill_configurator_failed : LogEntry
  kill_slave_failed : ℤ → LogEntry
  cycle_not_set : ℤ → LogEntry
  from_slave : ℤ → ErrorString → LogEntry
  missing_string missing_int missing_bool : ℤ → LogEntry
  unrecognized_slave_request : ℤ → LogEntry
  failed_disconnect unrecognized_response received_unrecognized : LogEntry
  unknown_command : Request → LogEntry

-- The segment, the control segment, the signals that were sent and the errors that were logged,
-- the last one first.
pub record Link : Type 0 where
  pub seg : Shmseg
  pub control : ControlShm
  pub sent : List (ℤ × Signal)
  pub log : List LogEntry

abbrev pub log_error : LogEntry → M Link (Unit {0})
log_error e = modify λ l. record l { log = e ∷ l.log }

abbrev pub update_seg : (Shmseg → Shmseg) → M Link (Unit {0})
update_seg f = modify λ l. record l { seg = f l.seg }

abbrev pub seg_sem : Sem → Shmseg → ℕ
seg_sem s_to_m_request g = g.sem_s_to_m_request
seg_sem _ g = g.sem_m_to_s_request

abbrev pub set_seg_sem : Sem → ℕ → Shmseg → Shmseg
set_seg_sem s_to_m_request v g = record g { sem_s_to_m_request = v }
set_seg_sem _ v g = record g { sem_m_to_s_request = v }

-- `while (!sem_trywait(&sem)) ;` on a value, which is the fuel: it ends with the semaphore at 0.
unfoldable pub drain : ℕ → ℕ
drain zero = zero
drain (suc v) = drain v

module _ (os : Os) where
  -- True on failure, as the C functions return a value other than 0.
  unfoldable pub kill : ℤ → Signal → M Link Bool
  kill pid sig = attempt (os.kill_fails pid sig) λ l. record l { sent = (pid, sig) ∷ l.sent }

  unfoldable pub sem_wait : Sem → M Link Bool
  sem_wait s l =
      attempt_wait (os.sem_wait_fails s) (seg_sem s l.seg)
        (λ v k. record k { seg = set_seg_sem s v k.seg }) l

  unfoldable pub sem_post : Sem → M Link Bool
  sem_post s =
      attempt (os.sem_post_fails s)
        λ l. record l { seg = set_seg_sem s (seg_sem s l.seg + 1) l.seg }

  -- `if (sem_post(…)) { log_error("sem_post() call failed!"); }`
  unfoldable pub sem_post_or_log : Sem → M Link (Unit {0})
  unfolding sem_post
  sem_post_or_log s = do failed ← sem_post s; when failed (log_error sem_post_failed)

unfoldable pub init_slave_shmseg_shared_memory : Shmseg → Shmseg
init_slave_shmseg_shared_memory g = record g {
  pid = no_pid;
  communication_cycle_us = error_not_set_communication_cycle;
  shmseg_error = replicate shmseg_error_size empty_error;
  string_value = replicate string_size 0;
  last_known_string_value = replicate string_size 0;
  int_value = int_value_undefined;
  last_known_int_value = int_value_undefined;
  bool_value = to_u8 bool_value_undefined;
  last_known_bool_value = to_u8 bool_value_undefined;
}

unfoldable pub reset_slave_shmseg : Os → M Link (Unit {0})
unfolding init_slave_shmseg_shared_memory zeroed_shmseg drain sem_post_or_log
reset_slave_shmseg os = do
  update_seg (λ g. init_slave_shmseg_shared_memory zeroed_shmseg)
  update_seg (λ g. record g { sem_m_to_s_request = drain g.sem_m_to_s_request })
  sem_post_or_log os m_to_s_request
  update_seg (λ g. record g { sem_s_to_m_request = drain g.sem_s_to_m_request })
  sem_post_or_log os s_to_m_request
