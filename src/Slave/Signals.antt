-- ===== src/Slave/Signals.antt =====
-- src/slave.c: initialisation from the command line, and one round of the signal handler thread.
use real_time_cyclic.Prelude.{
  ℕ, ◌==◌, ltb, ℤ, pos, Bool, not, List, Option, none, some, length, get_or, set, replicate, ◌==ℤ◌,
  if◌then◌else◌,
}
use real_time_cyclic.Common.{
  Shm, zeroed_shmseg, Signal, sigusr1, slave_name_size, Ret, rtc_success, rtc_error,
}
use real_time_cyclic.Common.Params.{
  add_bit, string_parameter_bit, int_parameter_bit, bool_parameter_bit,
}
use real_time_cyclic.Common.Text.{strcpy}
use real_time_cyclic.Table.{at, no_idx, out_of_bounds, get_assigned_idx}
use real_time_cyclic.Os.{
  Os, s_to_m_request, m_to_s_request, M, Outcome, done, blocked, fault, ◌>>=◌, ◌>>◌, pure, get,
  crash, modify, given◌run◌otherwise◌,
}
use real_time_cyclic.Slave.Node.{Self, Node}
use real_time_cyclic.Slave.Requests.{handle_master_request, handle_master_response}

-- The process: the shared memory, its own context, its pid and the signals that it sent.
pub record Process : Type 0 where
  pub shm : Shm
  pub self : Self
  pub own_pid : ℤ
  pub sent : List (ℤ × Signal)

-- `argv[2][i] == '1'` for an argument without its NUL; `none` is a read past the NUL.
unfoldable pub is_one_at : List ℕ → ℕ → Option Bool
is_one_at arg i = if ltb (length arg) i then none else some (get_or arg i 0 == b'1')

unfoldable pub parse_bit : List ℕ → ℕ → ℕ → ℕ → Option ℕ
unfolding is_one_at
parse_bit arg i bit mask = elim (is_one_at arg i) [
  | none ↦ none
  | some b ↦ some (if b then add_bit mask bit else mask)
]

unfoldable pub parse_parameters : List ℕ → Option ℕ
unfolding parse_bit
parse_parameters arg = elim (parse_bit arg 0 string_parameter_bit 0) [
  | none ↦ none
  | some s ↦ elim (parse_bit arg 1 int_parameter_bit s) [
    | none ↦ none
    | some t ↦ parse_bit arg 2 bool_parameter_bit t
  ]
]

-- The context with a name and a mask of parameters; `none` when `strcpy` leaves the buffer of the
-- name, or a read leaves the second argument.
abbrev pub self_of : Option (List ℕ) → Option ℕ → Option Self
self_of none mask = none
self_of (some name) none = none
self_of (some name) (some mask) = some (record {
  name = name;
  change_name_idx = 0;
  available_parameters = mask;
  last_sec = 0;
  last_usec = 0;
  excess_interval_us = pos 0;
  allow_cycle = 0;
  shmseg = none;
})

-- The assignments of `init` to `self`, for the arguments <slave_name> <available_parameters>.
unfoldable pub init_self : List ℕ → List ℕ → Option Self
unfolding parse_parameters
init_self slave_name parameters =
    self_of (strcpy (replicate slave_name_size 0) slave_name) (parse_parameters parameters)

-- A handler runs on the segment at index `i`, and writes it back.
unfoldable pub put_back : {A : Type 0} → ℕ → Process → Outcome Node A → Outcome Process A
put_back i p (done a n) = done a (record p {
  shm = record (p.shm) { slave_shmseg = set p.shm.slave_shmseg i n.seg };
  self = n.self;
  sent = n.sent;
})
put_back i p (blocked n) = blocked (record p {
  shm = record (p.shm) { slave_shmseg = set p.shm.slave_shmseg i n.seg };
  self = n.self;
  sent = n.sent;
})
put_back i p fault = fault

abbrev pub node_at : ℕ → Process → Node
node_at i p = record {
  self = p.self;
  seg = get_or p.shm.slave_shmseg i zeroed_shmseg;
  master_pid = p.shm.master_pid;
  sent = p.sent;
}

abbrev pub on_segment : {A : Type 0} → ℕ → M Node A → M Process A
on_segment i m p = put_back i p (m (node_at i p))

-- The pointer is set by the first signal that finds an assigned segment.
unfoldable pub first_signal_ever_setup : M Process Ret
first_signal_ever_setup = do
  p ← get
  elim p.self.shmseg [
    | some i ↦ pure rtc_success
    | none ↦ elim (get_assigned_idx (λ g. g.pid) zeroed_shmseg p.own_pid p.shm.slave_shmseg) [
      | at i ↦ (do
        modify (λ q. record q { self = record (q.self) { shmseg = some i } })
        pure rtc_success)
      | no_idx ↦ pure rtc_error
      | out_of_bounds ↦ crash
    ]
  ]

module _ (os : Os) where
  -- The choice between the two handlers, by the values of the two request semaphores.
  unfoldable pub choose_handler : M Node (Unit {0})
  choose_handler = do
    n ← get
    given os.sem_getvalue_fails s_to_m_request
        run pure tt
        otherwise given n.seg.sem_s_to_m_request == 0
        run handle_master_response os
        otherwise given os.sem_getvalue_fails m_to_s_request
        run pure tt
        otherwise given n.seg.sem_m_to_s_request == 0
        run handle_master_request os
        otherwise pure tt

  abbrev handle_attached : Option ℕ → M Process (Unit {0})
  handle_attached none = crash
  handle_attached (some i) = on_segment i choose_handler

  abbrev after_setup : Ret → M Process (Unit {0})
  after_setup rtc_error = pure tt
  after_setup rtc_success = do p ← get; handle_attached p.self.shmseg

  -- The body of the loop of `signal_handler_thread`, after `sigwaitinfo` returned `si_pid` and
  -- `si_signo`.
  unfoldable pub handle_signal : ℤ → Signal → M Process (Unit {0})
  unfolding choose_handler first_signal_ever_setup
  handle_signal si_pid sigusr1 = do
    p ← get
    given not (si_pid ==ℤ p.shm.master_pid)
        run pure tt
        otherwise (do ret ← first_signal_ever_setup; after_setup ret)
  handle_signal si_pid _ = pure tt
