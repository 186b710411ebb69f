-- ===== src/Configurator/Registry/Cases.antt =====
-- The cases of the menu of src/configurator.c that create, delete and connect slaves: they keep the
-- table of created slaves sound and stay inside it.
use real_time_cyclic.Prelude.{
  ℕ, ◌<◌, ◌≡◌, refl, sym, ◌∙◌, ap, subst, inl, inr, arith, true, Bool-cases, List, ◌∷◌, Option,
  none, some, ℤ, pos, leb,
}
use real_time_cyclic.Common.{
  max_slaves, Ret, rtc_success, rtc_error, Response, ack, sigint, sigusr2,
}
use real_time_cyclic.Table.View.{view}
use real_time_cyclic.Os.{Os, M, Outcome, done, blocked, fault, Survives, Survives-bind, Returns}
use real_time_cyclic.Configurator.Input.{Line, read_pid}
use real_time_cyclic.Configurator.{
  CreatedSlave, blank, Config, register_slave_locally, forget_slave, set_connected,
  send_delete_slave_request, send_connect_slave_request, wait_connect_slave_response, receive,
}
use real_time_cyclic.Configurator.Menu.{
  disconnected_pids, is_valid_pid, with_valid, name_of, parameters_of, spawn, create_named,
  create_slave_case, delete_slave_case, delete_valid, after_delete, connect_slave_case,
  connect_valid, after_connect,
}
use real_time_cyclic.Configurator.Registry.{
  IsSound, created, register-Refines, forget-Refines, connected-Refines,
}
use real_time_cyclic.Configurator.Registry.Offered.{registered}

pub survives :
    (P Q : Config → Type 0) (o : Outcome Config (Unit {0}))
    → Returns (λ _ d. P d) o
    → ((d : Config) → P d → Q d)
    → Survives Q o
survives P Q (done a d) h f = f d h
survives P Q (blocked d) h f = absurd h
survives P Q fault h f = absurd h

-- A new process is registered while less than 32 slaves were created.
create-Survives :
    (name_line parameters_line : Line) (p : ℕ) (c : Config)
    → IsSound c
    → created c p ≡ none
    → Survives IsSound (create_slave_case name_line parameters_line (pos p) c)
unfolding create_slave_case spawn
create-Survives name_line parameters_line p c ok new =
    elim (Bool-cases (leb max_slaves c.created_slaves_number)) [
      | inl used_up ↦ rw used_up ok
      | inr room ↦ rw room (of_name (ground (arith, room)) (name_of name_line))
    ]
  where
    of_name :
        c.created_slaves_number < max_slaves
        → (name : Option (List ℕ)) → Survives IsSound (create_named name parameters_line (pos p) c)
    of_name room none = ok
    of_name room (some name) =
        let started : Config = record c {
          spawned =
              record { pid = pos p; name = name; parameters = parameters_of parameters_line }
              ∷ c.spawned;
        } in
        survives _ IsSound (register_slave_locally (pos p) started)
          (register-Refines p started
            (record { full = ok.full; unique = ok.unique; pids = ok.pids; counted = ok.counted })
            room new)
          (λ d h. h.0)

module _ (os : Os) where
  -- Signals and commands leave the table.
  unfoldable pub Untouched : Config → Config → Type 0
  Untouched c d = IsSound d × (d.created_slave ≡ c.created_slave)

  pub send_delete-Survives :
      (pid : ℤ) (c : Config)
      → IsSound c
      → Survives (Untouched c) (send_delete_slave_request os pid c)
  unfolding send_delete_slave_request Untouched
  send_delete-Survives pid c ok = elim (Bool-cases (os.kill_fails pid sigint)) [
    | inl e ↦ rw e (ok, refl)
    | inr e ↦
        rw e (
          record { full = ok.full; unique = ok.unique; pids = ok.pids; counted = ok.counted },
          refl,
        )
  ]

  send_connect-Survives :
      (pid : ℤ) (c : Config)
      → IsSound c
      → Survives (Untouched c) (send_connect_slave_request os pid c)
  unfolding send_connect_slave_request Untouched
  send_connect-Survives pid c ok = elim (Bool-cases (os.kill_fails c.master_pid sigusr2)) [
    | inl e ↦
        rw e (
          record { full = ok.full; unique = ok.unique; pids = ok.pids; counted = ok.counted },
          refl,
        )
    | inr e ↦
        rw e (
          record { full = ok.full; unique = ok.unique; pids = ok.pids; counted = ok.counted },
          refl,
        )
  ]

  forget-Survives :
      (p : ℕ) (s : CreatedSlave) (c : Config)
      → IsSound c
      → created c p ≡ some s
      → Survives IsSound (forget_slave (pos p) c)
  forget-Survives p s c ok known =
      survives _ IsSound (forget_slave (pos p) c) (forget-Refines p s c ok known) (λ d h. h.0)

  wait_connect-Survives :
      (r : Option Response) (p : ℕ) (s : CreatedSlave) (c : Config)
      → IsSound c
      → created c p ≡ some s
      → Survives IsSound (wait_connect_slave_response r (pos p) c)
  unfolding wait_connect_slave_response receive
  wait_connect-Survives none p s c ok known = ok
  wait_connect-Survives (some ack) p s c ok known =
      let answered : Config = record c { control = record (c.control) { response = ack } } in
      survives _ IsSound (set_connected (pos p) true answered)
        (connected-Refines p true s answered
          (record { full = ok.full; unique = ok.unique; pids = ok.pids; counted = ok.counted })
          known)
        (λ d h. h.0)
  wait_connect-Survives (some r) p s c ok known = record {
    full = ok.full;
    unique = ok.unique;
    pids = ok.pids;
    counted = ok.counted;
  }

  -- The case goes on with a pid that was offered.
  valid-Survives :
      (input : Option ℤ) (k : ℤ → M Config (Unit {0})) (c : Config)
      → IsSound c
      → ((p : ℕ) (s : CreatedSlave) → created c p ≡ some s → Survives IsSound (k (pos p) c))
      → Survives IsSound (with_valid input (disconnected_pids c.created_slave) k c)
  valid-Survives none k c ok step = ok
  valid-Survives (some pid) k c ok step =
      elim (Bool-cases (is_valid_pid pid (disconnected_pids c.created_slave))) [
        | inl valid ↦
            let entry = registered c pid ok valid in
            rw valid
              (subst (λ q. Survives IsSound (k q c)) (sym entry.2) (step entry.0 entry.1 entry.3))
        | inr other ↦ rw other ok
      ]

  known_after :
      (c d : Config) (p : ℕ) (s : CreatedSlave)
      → created c p ≡ some s
      → d.created_slave ≡ c.created_slave
      → created d p ≡ some s
  known_after c d p s known same = ap (λ ss. view (λ s. s.pid) blank ss p) same ∙ known

  delete-Survives :
      (line : Line) (c : Config) → IsSound c → Survives IsSound (delete_slave_case os line c)
  unfolding delete_slave_case Untouched
  delete-Survives line c ok = valid-Survives (read_pid line) (delete_valid os) c ok λ p s known.
      Survives-bind (Untouched c) IsSound (send_delete_slave_request os (pos p))
        (after_delete os (pos p)) c (λ t k. k.0) (by_ret p s known)
        (send_delete-Survives (pos p) c ok)
    where
      by_ret :
          (p : ℕ) (s : CreatedSlave)
          → created c p ≡ some s
          → (ret : Ret) (d : Config) → Untouched c d
          → Survives IsSound (after_delete os (pos p) ret d)
      by_ret p s known rtc_success d h = forget-Survives p s d h.0 (known_after c d p s known h.1)
      by_ret p s known rtc_error d h = h.0

  connect-Survives :
      (line : Line) (r : Option Response) (c : Config)
      → IsSound c
      → Survives IsSound (connect_slave_case os line r c)
  unfolding connect_slave_case Untouched
  connect-Survives line r c ok =
      valid-Survives (read_pid line) (connect_valid os r) c ok λ p s known.
        Survives-bind (Untouched c) IsSound (send_connect_slave_request os (pos p))
          (after_connect os (pos p) r) c (λ t k. k.0) (by_ret p s known)
          (send_connect-Survives (pos p) c ok)
    where
      by_ret :
          (p : ℕ) (s : CreatedSlave)
          → created c p ≡ some s
          → (ret : Ret) (d : Config) → Untouched c d
          → Survives IsSound (after_connect os (pos p) r ret d)
      by_ret p s known rtc_success d h =
          wait_connect-Survives r p s d h.0 (known_after c d p s known h.1)
      by_ret p s known rtc_error d h = h.0

-- From a sound table the cases that create, delete and connect a slave keep the table sound and stay
-- inside it, whatever the user types, the master answers and the signals do, if a process that is
-- created has a pid that no registered slave has.
pub local_cases-Survive :
    (os : Os) (line parameters_line : Line) (p : ℕ) (r : Option Response) (c : Config)
    → IsSound c
    → created c p ≡ none
    → Survives IsSound (create_slave_case line parameters_line (pos p) c)
      × Survives IsSound (delete_slave_case os line c)
      × Survives IsSound (connect_slave_case os line r c)
local_cases-Survive os line parameters_line p r c ok new = (
  create-Survives line parameters_line p c ok new,
  delete-Survives os line c ok,
  connect-Survives os line r c ok,
)
