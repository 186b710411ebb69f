-- ===== src/Slave/Node.antt =====
-- src/slave.c: what the handlers of a slave read and write, the primitive calls on it, `set_error`,
-- and the answers to the master.
use real_time_cyclic.Prelude.{ℕ, ◌+◌, ◌%◌, ltb, ℤ, Bool, List, ◌∷◌, Option, set, if◌then◌else◌}
use real_time_cyclic.Common.{
  Shmseg, Signal, sigusr1, SlaveError, error_string, shmseg_error_size, Response, ack, nack,
}
use real_time_cyclic.Os.{
  Os, Sem, s_to_m_request, m_to_s_request, M, ◌>>=◌, ◌>>◌, pure, get, modify, attempt, attempt_wait,
}

-- `slave_context_t` without the pointer to the whole shared memory. `shmseg` is the index of the
-- segment that the pointer of this name points to, `none` for NULL; the interval, a double of
-- milliseconds in the source, is kept in microseconds.
pub record Self : Type 0 where
  pub name : List ℕ
  pub change_name_idx : ℕ  -- unsigned int
  pub available_parameters : ℕ
  pub last_sec : ℕ
  pub last_usec : ℕ
  pub excess_interval_us : ℤ
  pub allow_cycle : ℕ  -- the semaphore
  pub shmseg : Option ℕ

-- The slave, the segment that it is attached to, and the signals that it sent, the last one first.
pub record Node : Type 0 where
  pub self : Self
  pub seg : Shmseg
  pub master_pid : ℤ
  pub sent : List (ℤ × Signal)

abbrev pub update_seg : (Shmseg → Shmseg) → M Node (Unit {0})
update_seg f = modify λ n. record n { seg = f n.seg }

abbrev pub update_self : (Self → Self) → M Node (Unit {0})
update_self f = modify λ n. record n { self = f n.self }

abbrev pub node_sem : Sem → Node → ℕ
node_sem s_to_m_request n = n.seg.sem_s_to_m_request
node_sem m_to_s_request n = n.seg.sem_m_to_s_request
node_sem _ n = n.self.allow_cycle

abbrev pub set_node_sem : Sem → ℕ → Node → Node
set_node_sem s_to_m_request v n = record n { seg = record (n.seg) { sem_s_to_m_request = v } }
set_node_sem m_to_s_request v n = record n { seg = record (n.seg) { sem_m_to_s_request = v } }
set_node_sem _ v n = record n { self = record (n.self) { allow_cycle = v } }

-- The macro `set_error`.
unfoldable pub set_error_seg : SlaveError → Shmseg → Shmseg
set_error_seg e g =
    if ltb g.shmseg_error_current_size shmseg_error_size
    then record g {
      shmseg_error = set g.shmseg_error g.shmseg_error_current_size (error_string e);
      shmseg_error_current_size = (g.shmseg_error_current_size + 1) % 65536;
    }
    else g

abbrev pub set_error : SlaveError → M Node (Unit {0})
set_error e = update_seg (set_error_seg e)

module _ (os : Os) where
  -- True on failure.
  unfoldable pub kill : ℤ → Signal → M Node Bool
  kill pid sig = attempt (os.kill_fails pid sig) λ n. record n { sent = (pid, sig) ∷ n.sent }

  unfoldable pub sem_wait : Sem → M Node Bool
  sem_wait s n = attempt_wait (os.sem_wait_fails s) (node_sem s n) (set_node_sem s) n

  unfoldable pub sem_post : Sem → M Node Bool
  sem_post s = attempt (os.sem_post_fails s) λ n. set_node_sem s (node_sem s n + 1) n

  abbrev respond_master : Response → M Node (Unit {0})
  respond_master r = do
    update_seg (λ g. record g { res_s_to_m = r })
    n ← get
    failed ← kill n.master_pid sigusr1
    pure tt

  unfoldable pub send_master_ack_response : M Node (Unit {0})
  unfolding kill
  send_master_ack_response = respond_master ack

  unfoldable pub send_master_nack_response : M Node (Unit {0})
  unfolding kill
  send_master_nack_response = respond_master nack
