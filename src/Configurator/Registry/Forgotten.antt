-- ===== src/Configurator/Registry/Forgotten.antt =====
-- STOP_MASTER of src/configurator.c forgets the slaves of the segments, one after the other.
use real_time_cyclic.Prelude.{
  ℕ, suc, ◌<◌, ◌≡◌, ◌≢◌, refl, sym, ap, ◌∙◌, subst, inl, inr, arith, ℤ, pos, Bool-cases, List, [],
  ◌∷◌, some, get_or, length, ◌==ℤ◌, ==ℤ_iff, ◌==◌, ==_iff,
}
use real_time_cyclic.Common.{Shm, Shmseg, zeroed_shmseg, Ret, no_pid, sigint}
use real_time_cyclic.Table.View.{view, remove}
use real_time_cyclic.Os.{Os, M, Survives, Survives-bind, ◌>>=◌, ◌>>◌, pure}
use real_time_cyclic.Configurator.{
  CreatedSlave, blank, Config, forget_slave, send_delete_slave_request, send_stop_master_request,
}
use real_time_cyclic.Configurator.Menu.{with_segments, segments_of, stop_slaves, stop_master_case}
use real_time_cyclic.Configurator.Registry.{IsSound, created, forget-Refines}
use real_time_cyclic.Configurator.Registry.Cases.{Untouched, send_delete-Survives, survives}
use real_time_cyclic.Configurator.Registry.Questions.{IsSound-same}

-- A pid of a slave that is registered.
abbrev pub Known : Config → ℤ → Type 0
Known c pid = (p : ℕ) × (s : CreatedSlave) × (pid ≡ pos p) × (created c p ≡ some s)

-- The owners of the segments are registered, and no two segments have one owner.
pub record Owners (c : Config) (segments : List Shmseg) : Type 0 where
  pub known :
      (j : ℕ)
      → j < length segments
      → (get_or segments j zeroed_shmseg).pid ≢ no_pid
      → Known c (get_or segments j zeroed_shmseg).pid
  pub distinct :
      (i j : ℕ)
      → i < length segments
      → j < length segments
      → (get_or segments i zeroed_shmseg).pid ≢ no_pid
      → (get_or segments i zeroed_shmseg).pid ≡ (get_or segments j zeroed_shmseg).pid
      → i ≡ j

Owners-tail : (c : Config) (g : Shmseg) (gs : List Shmseg) → Owners c (g ∷ gs) → Owners c gs
Owners-tail c g gs o = record {
  known = λ j lt used. o.known (suc j) (omega (arith, lt)) used;
  distinct = λ i j hi hj used same.
      omega (arith, o.distinct (suc i) (suc j) (omega (arith, hi)) (omega (arith, hj)) used same);
}

-- A pid other than the one that is forgotten stays known.
Known-remove :
    (c d : Config) (p : ℕ) (pid : ℤ)
    → ((q : ℕ) → created d q ≡ remove p (created c) q)
    → pid ≢ pos p
    → Known c pid
    → Known d pid
Known-remove c d p pid gone other (q, s, e, k) = (
  q,
  s,
  e,
  elim (Bool-cases (q == p)) [
    | inl same ↦ absurd (other (e ∙ ap pos ((==_iff q p).0 same)))
    | inr ne ↦ gone q ∙ rw ne k
  ],
)

Owners-remove :
    (c d : Config) (p : ℕ) (g : Shmseg) (gs : List Shmseg)
    → g.pid ≡ pos p
    → g.pid ≢ no_pid
    → ((q : ℕ) → created d q ≡ remove p (created c) q)
    → Owners c (g ∷ gs)
    → Owners d gs
Owners-remove c d p g gs e used gone o = record {
  known = λ j lt taken.
      Known-remove c d p _ gone
        (λ same. absurd (
          omega
            (arith, o.distinct 0 (suc j) (omega arith) (omega (arith, lt)) used (e ∙ sym same))))
        (o.known (suc j) (omega (arith, lt)) taken);
  distinct = (Owners-tail c g gs o).distinct;
}

-- The table decides who is known.
pub Known-same :
    (c d : Config) (pid : ℤ) → d.created_slave ≡ c.created_slave → Known c pid → Known d pid
Known-same c d pid e (p, s, is, k) =
    (p, s, is, subst (λ t. view (λ s. s.pid) blank t p ≡ some s) (sym e) k)

Owners-same :
    (c d : Config) (gs : List Shmseg)
    → d.created_slave ≡ c.created_slave
    → Owners c gs
    → Owners d gs
Owners-same c d gs e o = record {
  known = λ j lt used. Known-same c d _ e (o.known j lt used);
  distinct = o.distinct;
}

-- The memory that is attached.
pub segments-Survives :
    (k : List Shmseg → M Config (Unit {0})) (shm : Shm) (c : Config)
    → c.shmp ≡ some shm
    → Survives IsSound (k shm.slave_shmseg c)
    → Survives IsSound (with_segments k c)
segments-Survives k shm c attached h =
    subst (λ o. Survives IsSound (segments_of o k c)) (sym attached) h

module _ (os : Os) where
  forget-Owners :
      (g : Shmseg) (gs : List Shmseg) (d : Config)
      → IsSound d
      → g.pid ≢ no_pid
      → Owners d (g ∷ gs)
      → Known d g.pid
      → Survives (λ u. IsSound u × Owners u gs) (forget_slave g.pid d)
  forget-Owners g gs d ok used o (p, s, e, k) =
      subst (λ x. Survives (λ u. IsSound u × Owners u gs) (forget_slave x d)) (sym e)
        (survives _ (λ u. IsSound u × Owners u gs) (forget_slave (pos p) d)
          (forget-Refines p s d ok k) (λ u h. (h.0, Owners-remove d u p g gs e used h.2 o)))

  -- What is left of a round of the loop after the signal.
  abbrev forget_rest : Shmseg → List Shmseg → Ret → M Config (Unit {0})
  forget_rest g gs ret = do forget_slave g.pid; stop_slaves os gs

  pub stop_slaves-Survives :
      (gs : List Shmseg) (c : Config)
      → IsSound c
      → Owners c gs
      → Survives IsSound (stop_slaves os gs c)
  unfolding stop_slaves Untouched
  stop_slaves-Survives [] c ok o = ok
  stop_slaves-Survives (g ∷ gs) c ok o = elim (Bool-cases (g.pid ==ℤ no_pid)) [
    | inl free ↦ rw free (stop_slaves-Survives gs c ok (Owners-tail c g gs o))
    | inr used ↦
        let taken : g.pid ≢ no_pid = ground (arith, ==ℤ_iff g.pid no_pid, used) in
        rw used (
          Survives-bind (Untouched os c) IsSound (send_delete_slave_request os g.pid)
            (forget_rest g gs) c (λ t k. k.0)
            (λ ret d h.
              Survives-bind (λ u. IsSound u × Owners u gs) IsSound (forget_slave g.pid)
                (λ _. stop_slaves os gs) d (λ t k. k.0) (λ _ u k. stop_slaves-Survives gs u k.0 k.1)
                (forget-Owners g gs d h.0 taken (Owners-same c d (g ∷ gs) h.1 o)
                  ((Owners-same c d (g ∷ gs) h.1 o).known 0 (omega arith) taken)))
            (send_delete-Survives os g.pid c ok))
  ]

  send_stop-Survives : (c : Config) → IsSound c → Survives IsSound (send_stop_master_request os c)
  unfolding send_stop_master_request
  send_stop-Survives c ok = elim (Bool-cases (os.kill_fails c.master_pid sigint)) [
    | inl e ↦ rw e ok
    | inr e ↦ rw e (IsSound-same c _ refl refl ok)
  ]

  -- What is left of the case after the loop.
  abbrev stop_master : M Config (Unit {0})
  stop_master = do ret ← send_stop_master_request os; pure tt

  pub stop_master-Survives :
      (shm : Shm) (c : Config)
      → c.shmp ≡ some shm
      → IsSound c
      → Owners c shm.slave_shmseg
      → Survives IsSound (stop_master_case os c)
  unfolding stop_master_case
  stop_master-Survives shm c attached ok o = elim (Bool-cases (c.master_pid ==ℤ no_pid)) [
    | inl none_ ↦ rw none_ ok
    | inr runs ↦ rw runs (
        Survives-bind IsSound IsSound (with_segments (stop_slaves os)) (λ _. stop_master) c
          (λ t k. k)
          (λ _ d h.
            Survives-bind IsSound IsSound (send_stop_master_request os) (λ ret. pure tt) d
              (λ t k. k) (λ ret t k. k) (send_stop-Survives d h))
          (segments-Survives (stop_slaves os) shm c attached
            (stop_slaves-Survives shm.slave_shmseg c ok o)))
  ]
