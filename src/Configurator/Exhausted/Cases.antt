-- ===== src/Configurator/Exhausted/Cases.antt =====
-- The number of created slaves never falls in the cases of the menu.
use real_time_cyclic.Prelude.{
  ℕ, suc, ◌≤◌, arith, ℤ, Bool, true, false, List, [], ◌∷◌, Option, none, some,
}
use real_time_cyclic.Common.{Shm, Shmseg, Response, ack, Ret, rtc_success, rtc_error}
use real_time_cyclic.Table.{Slot, at, no_idx, out_of_bounds}
use real_time_cyclic.Os.{Os, M, Ensures, Ensures-bind, ◌>>=◌, ◌>>◌, pure}
use real_time_cyclic.Configurator.Input.{Line, read_pid}
use real_time_cyclic.Configurator.{
  CreatedSlave, Config, write_local, register_slave_locally, forget_slave, set_connected,
  send_stop_master_request, send_stop_cycle_slave_request, send_connect_slave_request,
  send_disconnect_slave_request, send_delete_slave_request, wait_connect_slave_response,
  wait_disconnect_slave_response, wait_stop_slave_cycle_response,
}
use real_time_cyclic.Configurator.Menu.{
  name_of, parameters_of, spawn, create_named, create_slave_case, delete_slave_case,
  connect_slave_case, disconnect_slave_case, stop_slave_cycle_case, stop_slaves, stop_master_case,
  with_segments, segments_of, delete_valid, connect_valid, disconnect_valid, disconnect_idle,
  stop_valid, stop_started, after_delete, after_connect, after_stop, with_valid, disconnected_pids,
  idle_pids, started_pids,
}

module _ (k : ℕ) where
  abbrev pub AtLeast : Config → Type 0
  AtLeast c = k ≤ c.created_slaves_number

  write-AtLeast :
      (s : Slot) (f : CreatedSlave → CreatedSlave) (c : Config)
      → AtLeast c
      → Ensures AtLeast (write_local s f c)
  unfolding write_local
  write-AtLeast (at i) f c h = h
  write-AtLeast no_idx f c h = tt
  write-AtLeast out_of_bounds f c h = tt

  pub forget-AtLeast : (p : ℤ) (c : Config) → AtLeast c → Ensures AtLeast (forget_slave p c)
  unfolding forget_slave
  forget-AtLeast p c h = write-AtLeast _ _ c h

  pub connected-AtLeast :
      (p : ℤ) (b : Bool) (c : Config) → AtLeast c → Ensures AtLeast (set_connected p b c)
  unfolding set_connected
  connected-AtLeast p b c h = write-AtLeast _ _ c h

  pub register-AtLeast :
      (p : ℤ) (c : Config) → AtLeast c → Ensures AtLeast (register_slave_locally p c)
  unfolding register_slave_locally
  register-AtLeast p c h =
      write-AtLeast _ _ (record c { created_slaves_number = suc c.created_slaves_number })
        (omega (arith, h))

  pub spawn-AtLeast :
      (name parameters : List ℕ) (p : ℤ) (c : Config)
      → AtLeast c
      → Ensures AtLeast (spawn name parameters p c)
  unfolding spawn
  spawn-AtLeast name parameters p c h =
      register-AtLeast p
        (record c {
          spawned = record { pid = p; name = name; parameters = parameters } ∷ c.spawned;
        })
        h

  pub create-AtLeast :
      (name_line parameters_line : Line) (p : ℤ) (c : Config)
      → AtLeast c
      → Ensures AtLeast (create_slave_case name_line parameters_line p c)
  unfolding create_slave_case
  create-AtLeast name_line parameters_line p c h = ground (arith, h, of_name (name_of name_line))
    where
      of_name : (name : Option (List ℕ)) → Ensures AtLeast (create_named name parameters_line p c)
      of_name none = h
      of_name (some name) = spawn-AtLeast name (parameters_of parameters_line) p c h

  pub wait_connect-AtLeast :
      (r : Option Response) (p : ℤ) (c : Config)
      → AtLeast c
      → Ensures AtLeast (wait_connect_slave_response r p c)
  unfolding wait_connect_slave_response
  wait_connect-AtLeast (some ack) p c h =
      connected-AtLeast p true (record c { control = record (c.control) { response = ack } }) h
  wait_connect-AtLeast (some _) p c h = h
  wait_connect-AtLeast none p c h = h

  wait_disconnect-AtLeast :
      (r : Option Response) (p : ℤ) (c : Config)
      → AtLeast c
      → Ensures AtLeast (wait_disconnect_slave_response r p c)
  unfolding wait_disconnect_slave_response
  wait_disconnect-AtLeast (some ack) p c h =
      connected-AtLeast p false (record c { control = record (c.control) { response = ack } }) h
  wait_disconnect-AtLeast (some _) p c h = h
  wait_disconnect-AtLeast none p c h = h

  wait_stop-AtLeast :
      (r : Option Response) (c : Config)
      → AtLeast c
      → Ensures AtLeast (wait_stop_slave_cycle_response r c)
  unfolding wait_stop_slave_cycle_response
  wait_stop-AtLeast (some r) c h = h
  wait_stop-AtLeast none c h = h

  pub valid-AtLeast :
      (input : Option ℤ) (pids : List ℤ) (f : ℤ → M Config (Unit {0})) (c : Config)
      → AtLeast c
      → ((p : ℤ) → Ensures AtLeast (f p c))
      → Ensures AtLeast (with_valid input pids f c)
  valid-AtLeast none pids f c h step = h
  valid-AtLeast (some p) pids f c h step = ground (arith, h, step p)

  module _ (os : Os) where
    send_delete-AtLeast :
        (p : ℤ) (c : Config) → AtLeast c → Ensures AtLeast (send_delete_slave_request os p c)
    unfolding send_delete_slave_request
    send_delete-AtLeast p c h = ground (arith, h)

    pub send_connect-AtLeast :
        (p : ℤ) (c : Config) → AtLeast c → Ensures AtLeast (send_connect_slave_request os p c)
    unfolding send_connect_slave_request
    send_connect-AtLeast p c h = ground (arith, h)

    send_disconnect-AtLeast :
        (p : ℤ) (c : Config) → AtLeast c → Ensures AtLeast (send_disconnect_slave_request os p c)
    unfolding send_disconnect_slave_request
    send_disconnect-AtLeast p c h = ground (arith, h)

    send_stop_cycle-AtLeast :
        (p : ℤ) (c : Config) → AtLeast c → Ensures AtLeast (send_stop_cycle_slave_request os p c)
    unfolding send_stop_cycle_slave_request
    send_stop_cycle-AtLeast p c h = ground (arith, h)

    send_stop_master-AtLeast :
        (c : Config) → AtLeast c → Ensures AtLeast (send_stop_master_request os c)
    unfolding send_stop_master_request
    send_stop_master-AtLeast c h = ground (arith, h)

    pub by_ret :
        (f : Ret → M Config (Unit {0})) (t : Config)
        → Ensures AtLeast (f rtc_success t)
        → Ensures AtLeast (f rtc_error t)
        → (r : Ret) → Ensures AtLeast (f r t)
    by_ret f t s e rtc_success = s
    by_ret f t s e rtc_error = e

    pub delete-AtLeast :
        (line : Line) (c : Config) → AtLeast c → Ensures AtLeast (delete_slave_case os line c)
    unfolding delete_slave_case
    delete-AtLeast line c h =
        valid-AtLeast (read_pid line) (disconnected_pids c.created_slave) (delete_valid os) c h
          (λ p.
            Ensures-bind AtLeast AtLeast (send_delete_slave_request os p) _ c (λ t k. k)
              (λ r t k. by_ret (after_delete os p) t (forget-AtLeast p t k) k r)
              (send_delete-AtLeast p c h))

    pub connect-AtLeast :
        (line : Line) (a : Option Response) (c : Config)
        → AtLeast c
        → Ensures AtLeast (connect_slave_case os line a c)
    unfolding connect_slave_case
    connect-AtLeast line a c h =
        valid-AtLeast (read_pid line) (disconnected_pids c.created_slave) (connect_valid os a) c h
          (λ p.
            Ensures-bind AtLeast AtLeast (send_connect_slave_request os p) _ c (λ t k. k)
              (λ r t k. by_ret (after_connect os p a) t (wait_connect-AtLeast a p t k) k r)
              (send_connect-AtLeast p c h))

    pub segments-AtLeast :
        (f : List Shmseg → M Config (Unit {0})) (c : Config)
        → ((gs : List Shmseg) → Ensures AtLeast (f gs c))
        → Ensures AtLeast (with_segments f c)
    segments-AtLeast f c step = of_shm c.shmp
      where
        of_shm : (shmp : Option Shm) → Ensures AtLeast (segments_of shmp f c)
        of_shm none = tt
        of_shm (some shm) = step shm.slave_shmseg

    pub disconnect-AtLeast :
        (line : Line) (a : Option Response) (c : Config)
        → AtLeast c
        → Ensures AtLeast (disconnect_slave_case os line a c)
    unfolding disconnect_slave_case
    disconnect-AtLeast line a c h = segments-AtLeast (disconnect_idle os (read_pid line) a) c (λ gs.
        valid-AtLeast (read_pid line) (idle_pids gs) (disconnect_valid os a) c h (λ p.
          Ensures-bind AtLeast AtLeast (send_disconnect_slave_request os p) _ c (λ t k. k)
            (λ r t k. wait_disconnect-AtLeast a p t k) (send_disconnect-AtLeast p c h)))

    pub stop_cycle-AtLeast :
        (line : Line) (a : Option Response) (c : Config)
        → AtLeast c
        → Ensures AtLeast (stop_slave_cycle_case os line a c)
    unfolding stop_slave_cycle_case
    stop_cycle-AtLeast line a c h = segments-AtLeast (stop_started os (read_pid line) a) c (λ gs.
        valid-AtLeast (read_pid line) (started_pids gs) (stop_valid os a) c h (λ p.
          Ensures-bind AtLeast AtLeast (send_stop_cycle_slave_request os p) _ c (λ t k. k)
            (λ r t k. by_ret (after_stop os a) t (wait_stop-AtLeast a t k) k r)
            (send_stop_cycle-AtLeast p c h)))

    stop_slaves-AtLeast :
        (gs : List Shmseg) (c : Config) → AtLeast c → Ensures AtLeast (stop_slaves os gs c)
    unfolding stop_slaves
    stop_slaves-AtLeast [] c h = h
    stop_slaves-AtLeast (g ∷ gs) c h =
        let rest : Ensures AtLeast (
            (send_delete_slave_request os g.pid >>= λ ret. forget_slave g.pid >> stop_slaves os gs)
              c) =
          Ensures-bind AtLeast AtLeast (send_delete_slave_request os g.pid) _ c (λ t k. k)
            (λ r t k.
              Ensures-bind AtLeast AtLeast (forget_slave g.pid) _ t (λ u j. j)
                (λ _ u j. stop_slaves-AtLeast gs u j) (forget-AtLeast g.pid t k))
            (send_delete-AtLeast g.pid c h) in
        ground (arith, rest, stop_slaves-AtLeast gs c h)

    pub stop_master-AtLeast : (c : Config) → AtLeast c → Ensures AtLeast (stop_master_case os c)
    unfolding stop_master_case
    stop_master-AtLeast c h =
        let rest : Ensures AtLeast (
            (with_segments (stop_slaves os) >> (send_stop_master_request os >>= λ ret. pure tt))
              c) =
          Ensures-bind AtLeast AtLeast (with_segments (stop_slaves os)) _ c (λ t k. k)
            (λ _ t k.
              Ensures-bind AtLeast AtLeast (send_stop_master_request os) _ t (λ u j. j) (λ r u j. j)
                (send_stop_master-AtLeast t k))
            (segments-AtLeast (stop_slaves os) c (λ gs. stop_slaves-AtLeast gs c h)) in
        ground (arith, h, rest)
