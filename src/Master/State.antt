-- ===== src/Master/State.antt =====
-- src/master.c: the master's whole state, and handlers of one segment run on it.
pub mod Names
pub mod Tables
use real_time_cyclic.Prelude.{
  ℕ, suc, zero, ◌==◌, ℤ, ◌==ℤ◌, Bool, true, false, not, ◌&&◌, ◌||◌, List, get_or, set,
}
use real_time_cyclic.Common.{Shm, Shmseg, ControlShm, Signal, zeroed_shmseg, max_slaves, no_pid}
use real_time_cyclic.Common.Text.{c_string, streq}
use real_time_cyclic.Os.{M, Outcome, done, blocked, fault}
use real_time_cyclic.Master.Link.{Link, LogEntry}

-- `master_context_t` with the memory that it points to, the signals that were sent and the errors
-- that were logged, the last one first, and the pids of the processor threads that were created.
pub record Master : Type 0 where
  pub shm : Shm
  pub control : ControlShm
  pub sig_semaphore : List ℕ
  pub sent : List (ℤ × Signal)
  pub log : List LogEntry
  pub threads : List ℤ

abbrev pub segment : ℕ → Master → Shmseg
segment i m = get_or m.shm.slave_shmseg i zeroed_shmseg

abbrev pub link_at : ℕ → Master → Link
link_at i m = record { seg = segment i m; control = m.control; sent = m.sent; log = m.log }

abbrev pub write_link : ℕ → Master → Link → Master
write_link i m l = record m {
  shm = record (m.shm) { slave_shmseg = set m.shm.slave_shmseg i l.seg };
  control = l.control;
  sent = l.sent;
  log = l.log;
}

unfoldable pub put_back : {A : Type 0} → ℕ → Master → Outcome Link A → Outcome Master A
put_back i m (done a l) = done a (write_link i m l)
put_back i m (blocked l) = blocked (write_link i m l)
put_back i m fault = fault

-- A handler that is given `&self.shmp->slave_shmseg[i]`.
unfoldable pub on_segment : {A : Type 0} → ℕ → M Link A → M Master A
unfolding put_back
on_segment i h m = put_back i m (h (link_at i m))

unfoldable pub keep_table : {A : Type 0} → Master → Outcome Link A → Outcome Master A
keep_table m (done a l) = done a (record m { control = l.control; sent = l.sent; log = l.log })
keep_table m (blocked l) = blocked (record m { control = l.control; sent = l.sent; log = l.log })
keep_table m fault = fault

-- A function that is given no segment: the one of its link is a scratch copy.
unfoldable pub on_control : {A : Type 0} → M Link A → M Master A
unfolding keep_table
on_control h m =
    keep_table m
      (h (record { seg = zeroed_shmseg; control = m.control; sent = m.sent; log = m.log }))

-- Some segment at an index below the last argument, other than `idx`, is taken and
-- has this name.
unfoldable pub name_taken : List Shmseg → ℕ → List ℕ → ℕ → Bool
name_taken table idx name zero = false
name_taken table idx name (suc i) =
    let g = get_or table i zeroed_shmseg in
    (not (i == idx || g.pid ==ℤ no_pid) && streq (c_string name) (c_string g.name))
    || name_taken table idx name i

unfoldable pub must_change_name : ℕ → Master → Bool
unfolding name_taken
must_change_name idx m = name_taken m.shm.slave_shmseg idx (segment idx m).name max_slaves
