-- ===== src/Configurator/Registry/Menu.antt =====
-- One round of the menu of src/configurator.c, whatever the command is.
use real_time_cyclic.Prelude.{
  ℕ, suc, ◌<◌, ◌≡◌, ◌≢◌, refl, sym, ◌∙◌, subst, inl, inr, arith, ℤ, pos, true, false, Bool-cases,
  List, [], ◌∷◌, Option, none, some, get_or, length, ◌==ℤ◌, ==ℤ_iff, ◌&&◌, not,
}
use real_time_cyclic.Common.{
  Shm, Shmseg, zeroed_shmseg, Ret, rtc_success, rtc_error, Response, ack, no_pid, max_slaves,
  sigusr2,
}
use real_time_cyclic.Table.{at, get_assigned_idx}
use real_time_cyclic.Table.Exact.{get_assigned_idx_exact}
use real_time_cyclic.Os.{Os, M, Survives, Survives-bind, Survives-map}
use real_time_cyclic.Configurator.Input.{Line, read_pid}
use real_time_cyclic.Configurator.{
  Config, set_connected, send_disconnect_slave_request, send_stop_cycle_slave_request,
  wait_disconnect_slave_response, wait_stop_slave_cycle_response, receive,
}
use real_time_cyclic.Configurator.Menu.{
  idle_pids, started_pids, is_valid_pid, with_valid, disconnect_valid, disconnect_idle, stop_valid,
  stop_started, after_stop, disconnect_slave_case, stop_slave_cycle_case,
}
use real_time_cyclic.Configurator.Cycle.{
  Answers, get_assigned_shmseg_idx, start_valid, start_idle, start_slave_cycle_case,
}
use real_time_cyclic.Configurator.Registry.{IsSound, connected-Refines}
use real_time_cyclic.Configurator.Registry.Cases.{Untouched, survives}
use real_time_cyclic.Configurator.Registry.Questions.{
  Fits, Attached, IsSound-same, start_valid-Survives,
}
use real_time_cyclic.Configurator.Registry.Forgotten.{Known, Known-same, Owners, segments-Survives}

-- A pid that is offered for a disconnection, or for the start of a cycle, is that of a segment that
-- is connected.
idle_at :
    (pid : ℤ) (gs : List Shmseg)
    → is_valid_pid pid (idle_pids gs) ≡ true
    → (j : ℕ) × (j < length gs)
      × ((get_or gs j zeroed_shmseg).pid ≡ pid)
      × ((get_or gs j zeroed_shmseg).is_connected ≡ true)
unfolding is_valid_pid idle_pids
idle_at pid [] h = absurd (ground arith)
idle_at pid (g ∷ gs) h =
    elim (Bool-cases (pid ==ℤ g.pid && (g.is_connected && not g.cycle_started))) [
      | inl here ↦ (0, omega arith, ground (arith, ==ℤ_iff pid g.pid, here), ground (arith, here))
      | inr away ↦
          let later = idle_at pid gs (ground (arith, h, away)) in
          (suc later.0, omega (arith, later.1), later.2, later.3)
    ]

-- The shared memory that a round finds: a full table, in which every connected segment has an owner,
-- the owners are slaves that the configurator created, and no two segments have one owner.
pub record Ready (c : Config) : Type 0 where
  pub shm : Shm
  pub attached : c.shmp ≡ some shm
  pub full : length shm.slave_shmseg ≡ max_slaves
  pub owned :
      (j : ℕ)
      → j < length shm.slave_shmseg
      → (get_or shm.slave_shmseg j zeroed_shmseg).is_connected ≡ true
      → (get_or shm.slave_shmseg j zeroed_shmseg).pid ≢ no_pid
  pub owners : Owners c shm.slave_shmseg

module _ (c : Config) (ready : Ready c) where
  abbrev segments : List Shmseg
  segments = ready.shm.slave_shmseg

  idle-Known : (pid : ℤ) → is_valid_pid pid (idle_pids segments) ≡ true → Known c pid
  idle-Known pid h =
      let (j, lt, same, on) = idle_at pid segments h in
      subst (Known c) same (ready.owners.known j lt (ready.owned j lt on))

  -- The segment of such a pid is found.
  idle-found :
      (pid : ℤ)
      → is_valid_pid pid (idle_pids segments) ≡ true
      → (i : ℕ) × (get_assigned_shmseg_idx pid segments ≡ at i)
  unfolding get_assigned_shmseg_idx
  idle-found pid h =
      let (j, lt, same, on) = idle_at pid segments h in
      let (p, s, e, k) = idle-Known pid h in
      elim (get_assigned_idx_exact (λ g. g.pid) zeroed_shmseg p segments) [
        | inl (i, hit, less, is) ↦ (
          i,
          subst (λ x. get_assigned_idx (λ g. g.pid) zeroed_shmseg x segments ≡ at i) (sym e) hit,
        )
        | inr (miss, absent) ↦ absurd (absent j (omega (arith, lt, ready.full)) (same ∙ e))
      ]

-- The case goes on with a pid that was offered.
valid-Survives :
    (input : Option ℤ) (pids : List ℤ) (k : ℤ → M Config (Unit {0})) (c : Config)
    → IsSound c
    → ((pid : ℤ) → is_valid_pid pid pids ≡ true → Survives IsSound (k pid c))
    → Survives IsSound (with_valid input pids k c)
valid-Survives none pids k c ok step = ok
valid-Survives (some pid) pids k c ok step = elim (Bool-cases (is_valid_pid pid pids)) [
  | inl valid ↦ rw valid (step pid valid)
  | inr other ↦ rw other ok
]

module _ (os : Os) where
  send_disconnect-Survives :
      (pid : ℤ) (c : Config)
      → IsSound c
      → Survives (Untouched os c) (send_disconnect_slave_request os pid c)
  unfolding send_disconnect_slave_request Untouched
  send_disconnect-Survives pid c ok = elim (Bool-cases (os.kill_fails c.master_pid sigusr2)) [
    | inl e ↦ rw e (IsSound-same c _ refl refl ok, refl)
    | inr e ↦ rw e (IsSound-same c _ refl refl ok, refl)
  ]

  wait_disconnect-Survives :
      (r : Option Response) (pid : ℤ) (c : Config)
      → IsSound c
      → Known c pid
      → Survives IsSound (wait_disconnect_slave_response r pid c)
  unfolding wait_disconnect_slave_response receive
  wait_disconnect-Survives none pid c ok known = ok
  wait_disconnect-Survives (some ack) pid c ok (p, s, e, k) =
      let answered : Config = record c { control = record (c.control) { response = ack } } in
      subst (λ x. Survives IsSound (set_connected x false answered)) (sym e)
        (survives _ IsSound (set_connected (pos p) false answered)
          (connected-Refines p false s answered (IsSound-same c answered refl refl ok) k)
          (λ d h. h.0))
  wait_disconnect-Survives (some _) pid c ok known = IsSound-same c _ refl refl ok

  pub disconnect-Survives :
      (line : Line) (r : Option Response) (c : Config)
      → IsSound c
      → Ready c
      → Survives IsSound (disconnect_slave_case os line r c)
  unfolding disconnect_slave_case Untouched
  disconnect-Survives line r c ok ready =
      segments-Survives (disconnect_idle os (read_pid line) r) ready.shm c ready.attached (
        valid-Survives (read_pid line) (idle_pids ready.shm.slave_shmseg) (disconnect_valid os r) c
          ok
          λ pid valid.
            Survives-bind (Untouched os c) IsSound (send_disconnect_slave_request os pid)
              (λ ret. wait_disconnect_slave_response r pid) c (λ t k. k.0)
              (λ ret d h.
                wait_disconnect-Survives r pid d h.0
                  (Known-same c d pid h.1 (idle-Known c ready pid valid)))
              (send_disconnect-Survives pid c ok))

  send_stop-Survives :
      (pid : ℤ) (c : Config) → IsSound c → Survives IsSound (send_stop_cycle_slave_request os pid c)
  unfolding send_stop_cycle_slave_request
  send_stop-Survives pid c ok = elim (Bool-cases (os.kill_fails c.master_pid sigusr2)) [
    | inl e ↦ rw e (IsSound-same c _ refl refl ok)
    | inr e ↦ rw e (IsSound-same c _ refl refl ok)
  ]

  after_stop-Survives :
      (r : Option Response) (ret : Ret) (c : Config)
      → IsSound c
      → Survives IsSound (after_stop os r ret c)
  unfolding wait_stop_slave_cycle_response
  after_stop-Survives none rtc_success c ok = ok
  after_stop-Survives (some r) rtc_success c ok = IsSound-same c _ refl refl ok
  after_stop-Survives r rtc_error c ok = ok

  pub stop_cycle-Survives :
      (line : Line) (r : Option Response) (c : Config)
      → IsSound c
      → Ready c
      → Survives IsSound (stop_slave_cycle_case os line r c)
  unfolding stop_slave_cycle_case
  stop_cycle-Survives line r c ok ready =
      segments-Survives (stop_started os (read_pid line) r) ready.shm c ready.attached (
        valid-Survives (read_pid line) (started_pids ready.shm.slave_shmseg) (stop_valid os r) c ok
          λ pid valid.
            Survives-bind IsSound IsSound (send_stop_cycle_slave_request os pid) (after_stop os r) c
              (λ t k. k) (after_stop-Survives r) (send_stop-Survives pid c ok))

  pub start_cycle-Survives :
      (line : Line) (a : Answers) (r : Option Response) (c : Config)
      → IsSound c
      → Ready c
      → Fits a
      → Survives IsSound (start_slave_cycle_case os line a r c)
  unfolding start_slave_cycle_case
  start_cycle-Survives line a r c ok ready fits =
      segments-Survives (start_idle os line a r) ready.shm c ready.attached (
        valid-Survives (read_pid line) (idle_pids ready.shm.slave_shmseg)
          (start_valid os a r ready.shm.slave_shmseg) c ok
          λ pid valid.
            let (i, found) = idle-found c ready pid valid in
            Survives-map Attached IsSound (start_valid os a r ready.shm.slave_shmseg pid c)
              (λ d h. h.0)
              (start_valid-Survives os a r ready.shm.slave_shmseg pid i c fits
                (ok, λ none_. absurd (ground (arith, ready.attached, none_))) found))
