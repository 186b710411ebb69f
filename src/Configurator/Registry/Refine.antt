-- ===== src/Configurator/Registry/Refine.antt =====
-- Sequences of the three operations of src/configurator.c on its table, and of the registry.
use real_time_cyclic.Prelude.{
  ℕ, suc, ◌<◌, ◌≡◌, ◌≢◌, refl, sym, subst, Bool, List, [], ◌∷◌, Option, none, some, pos,
  Option-cases, inl, inr,
}
use mathlib.Core.Path.{ap₂, fun_ext}
use real_time_cyclic.Common.{max_slaves}
use real_time_cyclic.Table.View.{insert, remove}
use real_time_cyclic.Os.{M, Returns, Returns-bind, Returns-map, ◌>>◌, pure}
use real_time_cyclic.Configurator.{
  CreatedSlave, Config, register_slave_locally, forget_slave, set_connected,
}
use real_time_cyclic.Configurator.Registry.{
  IsSound, created, new_slave, register-Refines, forget-Refines, connected-Refines,
}

-- A use of the table.
pub data Op : Type 0 where
  registers forgets : ℕ → Op
  connects : ℕ → Bool → Op

-- What the code does.
unfoldable pub run_op : Op → M Config (Unit {0})
run_op (registers p) = register_slave_locally (pos p)
run_op (forgets p) = forget_slave (pos p)
run_op (connects p b) = set_connected (pos p) b

unfoldable pub run_ops : List Op → M Config (Unit {0})
unfolding run_op
run_ops [] = pure tt
run_ops (o ∷ os) = do run_op o; run_ops os

-- The registry: how many slaves were ever registered, and those that are now, by their pids.
pub record Registry : Type 0 where
  pub number : ℕ
  pub slaves : ℕ → Option CreatedSlave

abbrev pub registry : Config → Registry
registry c = record { number = c.created_slaves_number; slaves = created c }

-- What an operation means.
unfoldable pub apply : Op → Registry → Registry
apply (registers p) r = record { number = suc r.number; slaves = insert p (new_slave p) r.slaves }
apply (forgets p) r = record { number = r.number; slaves = remove p r.slaves }
apply (connects p b) r = record {
  number = r.number;
  slaves = insert p (record { pid = pos p; connected = b }) r.slaves;
}

unfoldable pub apply_all : List Op → Registry → Registry
unfolding apply
apply_all [] r = r
apply_all (o ∷ os) r = apply_all os (apply o r)

-- What the cases of the menu see to: a slave is registered once and while less than 32 were, and
-- only registered slaves are forgotten or connected.
abbrev pub Allowed : Op → Registry → Type 0
Allowed (registers p) r = (r.number < max_slaves) × (r.slaves p ≡ none)
Allowed (forgets p) r = r.slaves p ≢ none
Allowed (connects p b) r = r.slaves p ≢ none

abbrev pub AllAllowed : List Op → Registry → Type 0
AllAllowed [] r = Unit {0}
AllAllowed (o ∷ os) r = Allowed o r × AllAllowed os (apply o r)

-- The table is sound and stands for this registry.
abbrev pub Represents : Registry → Config → Type 0
Represents r c = IsSound c × (registry c ≡ r)

present : (r : ℕ → Option CreatedSlave) (p : ℕ) → r p ≢ none → (s : CreatedSlave) × (r p ≡ some s)
present r p h = elim (Option-cases (r p)) [ inl e ↦ absurd (h e) | inr (s, e) ↦ (s, e) ]

represents :
    (n : ℕ) (r : ℕ → Option CreatedSlave) (d : Config)
    → IsSound d × (d.created_slaves_number ≡ n) × ((q : ℕ) → created d q ≡ r q)
    → Represents (record { number = n; slaves = r }) d
represents n r d h = (h.0, ap₂ (λ k s. record { number = k; slaves = s }) h.1 (fun_ext h.2))

run_op-Refines :
    (o : Op) (c : Config)
    → IsSound c
    → Allowed o (registry c)
    → Returns (λ _ d. Represents (apply o (registry c)) d) (run_op o c)
unfolding run_op apply
run_op-Refines (registers p) c ok allowed =
    Returns-map _ _ (register_slave_locally (pos p) c)
      (λ _. represents (suc c.created_slaves_number) (insert p (new_slave p) (created c)))
      (register-Refines p c ok allowed.0 allowed.1)
run_op-Refines (forgets p) c ok allowed =
    let known : (s : CreatedSlave) × (created c p ≡ some s) = present (created c) p allowed in
    Returns-map _ _ (forget_slave (pos p) c)
      (λ _. represents c.created_slaves_number (remove p (created c)))
      (forget-Refines p known.0 c ok known.1)
run_op-Refines (connects p b) c ok allowed =
    let known : (s : CreatedSlave) × (created c p ≡ some s) = present (created c) p allowed in
    Returns-map _ _ (set_connected (pos p) b c)
      (λ _.
        represents c.created_slaves_number
          (insert p (record { pid = pos p; connected = b }) (created c)))
      (connected-Refines p b known.0 c ok known.1)

-- Whatever registrations, removals and changes of the connection follow each other, as long as the
-- registry allows each of them: the code never leaves its table, and the table stands for the
-- registry that the same operations make of the map from pids to slaves.
pub run_ops-Refines :
    (os : List Op) (c : Config)
    → IsSound c
    → AllAllowed os (registry c)
    → Returns (λ _ d. Represents (apply_all os (registry c)) d) (run_ops os c)
unfolding run_ops apply_all
run_ops-Refines [] c ok allowed = (ok, refl)
run_ops-Refines (o ∷ os) c ok allowed =
    Returns-bind (λ _ d. Represents (apply o (registry c)) d)
      (λ _ d. Represents (apply_all os (apply o (registry c))) d) (run_op o) (λ _. run_ops os) c
      (λ _ d h.
        subst (λ r. Returns (λ _ e. Represents (apply_all os r) e) (run_ops os d)) h.1
          (run_ops-Refines os d h.0 (subst (AllAllowed os) (sym h.1) allowed.1)))
      (run_op-Refines o c ok allowed.0)
