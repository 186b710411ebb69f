-- ===== src/Configurator/Registry.antt =====
-- The table of created slaves as a registry: what the configurator has to know of them, and that the
-- hash table of src/configurator.c implements it.
pub mod Refine
pub mod Offered
pub mod Cases
pub mod Questions
pub mod Forgotten
pub mod Menu
pub mod Dispatch
use real_time_cyclic.Prelude.{
  ℕ, zero, suc, ◌<◌, ◌≤◌, ◌≡◌, refl, sym, ap, ◌∙◌, subst, ◌⊎◌, ◌≢◌, inl, inr, ℕ_discrete,
  get_or-set_self, get_or-set_ne, Bool, true, false, List, [], ◌∷◌, Option, none, some, arith,
  get_or, get_or-replicate, set, length, length-set, ℤ, pos, ◌==ℤ◌, ==ℤ_iff, ==ℤ_ne, ==ℤ_self, ◌==◌,
  if◌then◌else◌,
}
use real_time_cyclic.Common.{max_slaves, no_pid}
use real_time_cyclic.Table.{
  Slot, at, no_idx, out_of_bounds, Slot-cases, assign_idx, get_assigned_idx,
}
use real_time_cyclic.Table.Laws.{
  Unique, get_assigned_idx_hit, get_assigned_idx_miss, assign_idx_hit, assign_idx_miss,
  searches_in_bounds,
}
use real_time_cyclic.Table.View.{
  insert, remove, view, found_at, not_found, view-claim, view-write, view-erase, set-Unique,
}
use real_time_cyclic.Os.{M, Outcome, done, blocked, fault, Returns, Returns-bind, ◌>>=◌, ◌>>◌, pure}
use real_time_cyclic.Configurator.Entries.{taken, taken-set, taken_all, HasPid, set-HasPid}
use real_time_cyclic.Configurator.Main.{fresh}
use real_time_cyclic.Configurator.{
  CreatedSlave, blank, Config, write_local, assign_local_idx, get_assigned_local_idx,
  register_slave_locally, forget_slave, set_connected,
}

pub record IsSound (c : Config) : Type 0 where
  pub full : length c.created_slave ≡ max_slaves
  pub unique : Unique (λ s. s.pid) blank c.created_slave
  pub pids : (j : ℕ) → j < max_slaves → HasPid (get_or c.created_slave j blank)
  pub counted : taken c.created_slave ≤ c.created_slaves_number

-- The table before the first slave is created.
pub fresh-IsSound : (own_pid : ℤ) → IsSound (fresh own_pid)
unfolding taken
fresh-IsSound own_pid = record {
  full = refl;
  unique = λ i j hi hj used same.
      absurd (used (ap (λ s. s.pid) (get_or-replicate max_slaves i blank blank hi)));
  pids = λ j hj. inl (ap (λ s. s.pid) (get_or-replicate max_slaves j blank blank hj));
  counted = omega arith;
}

abbrev pub created : Config → ℕ → Option CreatedSlave
created c = view (λ s. s.pid) blank c.created_slave

abbrev pub new_slave : ℕ → CreatedSlave
new_slave p = record { pid = pos p; connected = false }

-- A slave that is registered in a sound table that was used less than 32 times is in the map.
pub register-Refines :
    (p : ℕ) (c : Config)
    → IsSound c
    → c.created_slaves_number < max_slaves
    → created c p ≡ none
    → Returns
        (λ _ d.
          IsSound d
          × (d.created_slaves_number ≡ suc c.created_slaves_number)
          × ((q : ℕ) → created d q ≡ insert p (new_slave p) (created c) q))
        (register_slave_locally (pos p) c)
unfolding register_slave_locally assign_local_idx write_local
register-Refines p c ok room new =
    by_slot (assign_idx (λ s. s.pid) blank (pos p) c.created_slave) refl
  where
    counting : Config
    counting = record c { created_slaves_number = suc c.created_slaves_number }

    free : Slot
    free = assign_idx (λ s. s.pid) blank (pos p) c.created_slave

    absent : (j : ℕ) → j < max_slaves → (get_or c.created_slave j blank).pid ≢ pos p
    absent =
        get_assigned_idx_miss (λ s. s.pid) blank p c.created_slave
          (not_found (λ s. s.pid) blank c.created_slave p new)

    by_slot :
        (s : Slot)
        → free ≡ s
        → Returns
            (λ _ d.
              IsSound d
              × (d.created_slaves_number ≡ suc c.created_slaves_number)
              × ((q : ℕ) → created d q ≡ insert p (new_slave p) (created c) q))
            (write_local s (λ _. new_slave p) counting)
    by_slot (at i) e =
        let hit : (i < max_slaves) × ((get_or c.created_slave i blank).pid ≡ no_pid) =
          assign_idx_hit (λ s. s.pid) blank p c.created_slave e in
        (
          record {
            full = length-set c.created_slave i (new_slave p) ∙ ok.full;
            unique =
                set-Unique (λ s. s.pid) blank c.created_slave i (new_slave p) ok.full hit.0
                  ok.unique (λ j lt same used. absurd (absent j lt same));
            pids = set-HasPid c.created_slave i (new_slave p) ok.full hit.0 (inr (p, refl)) ok.pids;
            counted = omega (arith, ok.counted, (taken-set c.created_slave i (new_slave p)).0);
          },
          refl,
          view-claim (λ s. s.pid) blank c.created_slave i (new_slave p) ok.full hit.0 p refl e new,
        )
    by_slot no_idx e =
        let all : taken c.created_slave ≡ length c.created_slave = taken_all c.created_slave λ j lt.
          assign_idx_miss (λ s. s.pid) blank p c.created_slave e j (omega (arith, ok.full)) in
        absurd (omega (arith, ok.counted, room, ok.full, all))
    by_slot out_of_bounds e = absurd ((searches_in_bounds (λ s. s.pid) blank p c.created_slave).1 e)

pub forget-Refines :
    (p : ℕ) (s : CreatedSlave) (c : Config)
    → IsSound c
    → created c p ≡ some s
    → Returns
        (λ _ d.
          IsSound d
          × (d.created_slaves_number ≡ c.created_slaves_number)
          × ((q : ℕ) → created d q ≡ remove p (created c) q))
        (forget_slave (pos p) c)
unfolding forget_slave get_assigned_local_idx write_local
forget-Refines p s c ok known =
    let at_i = found_at (λ s. s.pid) blank c.created_slave p s known in
    rw at_i.1 (
      record {
        full = length-set c.created_slave at_i.0 blank ∙ ok.full;
        unique =
            set-Unique (λ s. s.pid) blank c.created_slave at_i.0 blank ok.full at_i.2 ok.unique
              (λ j lt same used. absurd (used refl));
        pids = set-HasPid c.created_slave at_i.0 blank ok.full at_i.2 (inl refl) ok.pids;
        counted = omega (arith, ok.counted, (taken-set c.created_slave at_i.0 blank).1 refl);
      },
      refl,
      view-erase (λ s. s.pid) blank c.created_slave at_i.0 blank ok.full at_i.2 p ok.unique refl
          at_i.1,
    )

pub connected-Refines :
    (p : ℕ) (b : Bool) (s : CreatedSlave) (c : Config)
    → IsSound c
    → created c p ≡ some s
    → Returns
        (λ _ d.
          IsSound d
          × (d.created_slaves_number ≡ c.created_slaves_number)
          × ((q : ℕ)
              → created d q ≡ insert p (record { pid = pos p; connected = b }) (created c) q))
        (set_connected (pos p) b c)
unfolding set_connected get_assigned_local_idx write_local
connected-Refines p b s c ok known =
    let at_i = found_at (λ s. s.pid) blank c.created_slave p s known in
    let old : CreatedSlave = get_or c.created_slave at_i.0 blank in
    rw at_i.1 (
      record {
        full = length-set c.created_slave at_i.0 (record old { connected = b }) ∙ ok.full;
        unique =
            set-Unique (λ s. s.pid) blank c.created_slave at_i.0 (record old { connected = b })
              ok.full at_i.2 ok.unique
              (λ j lt same used. ok.unique j at_i.0 lt at_i.2 (λ e. used (sym same ∙ e)) same);
        pids =
            set-HasPid c.created_slave at_i.0 (record old { connected = b }) ok.full at_i.2
              (inr (p, at_i.3)) ok.pids;
        counted = ground (
          arith,
          ok.counted,
          at_i,
          (taken-set c.created_slave at_i.0 (record old { connected = b })).2,
        );
      },
      refl,
      λ q.
          view-write (λ s. s.pid) blank c.created_slave at_i.0 (record old { connected = b })
            ok.full at_i.2 p at_i.3 at_i.1 q
          ∙ ap (λ x. insert p (record { pid = x; connected = b }) (created c) q) at_i.3,
    )
