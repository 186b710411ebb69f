-- ===== src/Configurator/Menu.antt =====
-- src/configurator.c: the cases of the menu in `main`.
use real_time_cyclic.Prelude.{
  ℕ, ◌==◌, ltb, ℤ, ◌==ℤ◌, leb, not, Bool, false, ◌&&◌, ◌||◌, List, [], ◌∷◌, Option, none, some,
  if◌then◌else◌,
}
use real_time_cyclic.Common.{Shm, Shmseg, Ret, rtc_success, rtc_error, Response, no_pid, max_slaves}
use real_time_cyclic.Os.{Os, M, ◌>>=◌, ◌>>◌, pure, get, modify, crash, given◌run◌otherwise◌}
use real_time_cyclic.Configurator.Input.{
  Line, read_characters, buffer_of, byte_at, scan_word, flag_at, read_pid,
}
use real_time_cyclic.Configurator.{
  CreatedSlave, Config, register_slave_locally, forget_slave, send_stop_master_request,
  send_stop_cycle_slave_request, send_connect_slave_request, send_disconnect_slave_request,
  send_delete_slave_request, wait_connect_slave_response, wait_disconnect_slave_response,
  wait_stop_slave_cycle_response,
}

-- The loop that collects the pids of created slaves that are not connected.
unfoldable pub disconnected_pids : List CreatedSlave → List ℤ
disconnected_pids [] = []
disconnected_pids (s ∷ ss) =
    let rest = disconnected_pids ss in
    if not (s.pid ==ℤ no_pid) && not s.connected then s.pid ∷ rest else rest

-- The loop that collects the pids of connected segments whose cycle is not started.
unfoldable pub idle_pids : List Shmseg → List ℤ
idle_pids [] = []
idle_pids (g ∷ gs) =
    let rest = idle_pids gs in if g.is_connected && not g.cycle_started then g.pid ∷ rest else rest

unfoldable pub started_pids : List Shmseg → List ℤ
started_pids [] = []
started_pids (g ∷ gs) =
    let rest = started_pids gs in
    if not (g.pid ==ℤ no_pid) && (g.is_connected && g.cycle_started) then g.pid ∷ rest else rest

-- The loop that sets `valid_pid`.
unfoldable pub is_valid_pid : ℤ → List ℤ → Bool
is_valid_pid pid [] = false
is_valid_pid pid (p ∷ ps) = pid ==ℤ p || is_valid_pid pid ps

-- A pid that the user typed is used only if it is one of those that were offered.
abbrev pub with_valid : Option ℤ → List ℤ → (ℤ → M Config (Unit {0})) → M Config (Unit {0})
with_valid none pids k = pure tt
with_valid (some pid) pids k = given is_valid_pid pid pids run k pid otherwise pure tt

-- `self.shmp->slave_shmseg`.
abbrev pub segments_of : Option Shm → (List Shmseg → M Config (Unit {0})) → M Config (Unit {0})
segments_of none k = crash
segments_of (some shm) k = k shm.slave_shmseg

abbrev pub with_segments : (List Shmseg → M Config (Unit {0})) → M Config (Unit {0})
with_segments k = do c ← get; segments_of c.shmp k

-- The name in the line; `none` if the line is refused.
unfoldable pub name_of : Line → Option (List ℕ)
unfolding byte_at
name_of line =
    if ltb (read_characters line) 2 || byte_at line 0 == b' '
    then none
    else some (scan_word 127 (buffer_of line))

-- XYZ.
unfoldable pub parameters_of : Line → List ℕ
parameters_of line = flag_at line 0 ∷ flag_at line 1 ∷ flag_at line 2 ∷ []

-- The parent's part of CREATE_SLAVE and AUTOMATIC_TEST; what `fork` returns is not tested.
unfoldable pub spawn : List ℕ → List ℕ → ℤ → M Config (Unit {0})
spawn name parameters fork_pid = do
  modify (λ c. record c {
    spawned = record { pid = fork_pid; name = name; parameters = parameters } ∷ c.spawned;
  })
  register_slave_locally fork_pid

abbrev pub create_named : Option (List ℕ) → Line → ℤ → M Config (Unit {0})
create_named none parameters_line fork_pid = pure tt
create_named (some name) parameters_line fork_pid =
    spawn name (parameters_of parameters_line) fork_pid

-- CREATE_SLAVE.
unfoldable pub create_slave_case : Line → Line → ℤ → M Config (Unit {0})
create_slave_case name_line parameters_line fork_pid = do
  c ← get
  given leb max_slaves c.created_slaves_number
      run pure tt
      otherwise create_named (name_of name_line) parameters_line fork_pid

module _ (os : Os) where
  abbrev pub after_delete : ℤ → Ret → M Config (Unit {0})
  after_delete pid rtc_success = forget_slave pid
  after_delete pid rtc_error = pure tt

  abbrev pub delete_valid : ℤ → M Config (Unit {0})
  delete_valid pid = do ret ← send_delete_slave_request os pid; after_delete pid ret

  unfoldable pub delete_slave_case : Line → M Config (Unit {0})
  delete_slave_case line = do
    c ← get
    with_valid (read_pid line) (disconnected_pids c.created_slave) delete_valid

  abbrev pub after_connect : ℤ → Option Response → Ret → M Config (Unit {0})
  after_connect pid r rtc_success = wait_connect_slave_response r pid
  after_connect pid r rtc_error = pure tt

  abbrev pub connect_valid : Option Response → ℤ → M Config (Unit {0})
  connect_valid r pid = do ret ← send_connect_slave_request os pid; after_connect pid r ret

  unfoldable pub connect_slave_case : Line → Option Response → M Config (Unit {0})
  connect_slave_case line r = do
    c ← get
    with_valid (read_pid line) (disconnected_pids c.created_slave) (connect_valid r)

  -- What the request returns is not looked at.
  abbrev pub disconnect_valid : Option Response → ℤ → M Config (Unit {0})
  disconnect_valid r pid = do
    ret ← send_disconnect_slave_request os pid
    wait_disconnect_slave_response r pid

  abbrev pub disconnect_idle : Option ℤ → Option Response → List Shmseg → M Config (Unit {0})
  disconnect_idle input r segments = with_valid input (idle_pids segments) (disconnect_valid r)

  unfoldable pub disconnect_slave_case : Line → Option Response → M Config (Unit {0})
  disconnect_slave_case line r = with_segments (disconnect_idle (read_pid line) r)

  abbrev pub after_stop : Option Response → Ret → M Config (Unit {0})
  after_stop r rtc_success = wait_stop_slave_cycle_response r
  after_stop r rtc_error = pure tt

  abbrev pub stop_valid : Option Response → ℤ → M Config (Unit {0})
  stop_valid r pid = do ret ← send_stop_cycle_slave_request os pid; after_stop r ret

  abbrev pub stop_started : Option ℤ → Option Response → List Shmseg → M Config (Unit {0})
  stop_started input r segments = with_valid input (started_pids segments) (stop_valid r)

  unfoldable pub stop_slave_cycle_case : Line → Option Response → M Config (Unit {0})
  stop_slave_cycle_case line r = with_segments (stop_started (read_pid line) r)

  -- The loop of STOP_MASTER over the segments.
  unfoldable pub stop_slaves : List Shmseg → M Config (Unit {0})
  stop_slaves [] = pure tt
  stop_slaves (g ∷ gs) =
      given g.pid ==ℤ no_pid
      run stop_slaves gs
      otherwise (do ret ← send_delete_slave_request os g.pid; forget_slave g.pid; stop_slaves gs)

  unfoldable pub stop_master_case : M Config (Unit {0})
  stop_master_case = do
    c ← get
    given c.master_pid ==ℤ no_pid
        run pure tt
        otherwise (do with_segments stop_slaves; ret ← send_stop_master_request os; pure tt)
