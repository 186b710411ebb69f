-- ===== src/Table/View.antt =====
-- The table seen as a finite map from pids to entries, whatever index an entry has.
use real_time_cyclic.Prelude.{
  ℕ, ◌<◌, ◌≡◌, ◌≢◌, refl, sym, ap, ◌∙◌, inl, inr, List, Option, none, some, arith, get_or, set,
  length, get_or-set, get_or-set_self, get_or-set_ne, ℤ, pos, ℕ_discrete, ◌==◌, if◌then◌else◌,
}
use real_time_cyclic.Common.{max_slaves, no_pid}
use real_time_cyclic.Table.{
  Slot, at, no_idx, out_of_bounds, Slot-cases, assign_idx, get_assigned_idx,
}
use real_time_cyclic.Table.Laws.{
  Unique, get_assigned_idx_hit, assign_idx_hit, searches_in_bounds, get_assigned_idx-set_ne,
  get_assigned_idx-set_same, get_assigned_idx-assign,
}

-- The map with `a` at `p`, and without `p`.
abbrev pub insert : {V : Type 0} → ℕ → V → (ℕ → Option V) → ℕ → Option V
insert p a r q = if q == p then some a else r q

abbrev pub remove : {V : Type 0} → ℕ → (ℕ → Option V) → ℕ → Option V
remove p r q = if q == p then none else r q

module _ {A : Type 0} (pid_of : A → ℤ) (blank : A) where
  abbrev pub entry : List A → Slot → Option A
  entry table (at i) = some (get_or table i blank)
  entry table no_idx = none
  entry table out_of_bounds = none

  abbrev pub view : List A → ℕ → Option A
  view table p = entry table (get_assigned_idx pid_of blank (pos p) table)

  -- What is in the map stands at an index.
  pub found_at :
      (table : List A) (p : ℕ) (a : A)
      → view table p ≡ some a
      → (i : ℕ) × (get_assigned_idx pid_of blank (pos p) table ≡ at i)
        × (i < max_slaves)
        × (pid_of (get_or table i blank) ≡ pos p)
        × (get_or table i blank ≡ a)
  found_at table p a e = elim (Slot-cases (get_assigned_idx pid_of blank (pos p) table)) [
    | inl (i, at_i) ↦
        let hit : (i < max_slaves) × (pid_of (get_or table i blank) ≡ pos p) =
          get_assigned_idx_hit pid_of blank p table at_i in
        (i, at_i, hit.0, hit.1, ground (arith, at_i, e))
    | inr (inl miss) ↦ absurd (ground (arith, miss, e))
    | inr (inr out) ↦ absurd ((searches_in_bounds pid_of blank p table).0 out)
  ]

  pub not_found :
      (table : List A) (p : ℕ)
      → view table p ≡ none
      → get_assigned_idx pid_of blank (pos p) table ≡ no_idx
  not_found table p e = elim (Slot-cases (get_assigned_idx pid_of blank (pos p) table)) [
    | inl (i, at_i) ↦ absurd (ground (arith, at_i, e))
    | inr (inl miss) ↦ miss
    | inr (inr out) ↦ absurd ((searches_in_bounds pid_of blank p table).0 out)
  ]

  module _ (table : List A) (i : ℕ) (a : A) (full : length table ≡ max_slaves)
      (lt : i < max_slaves) where
    -- A write concerns no pid but the old one and the new one.
    pub view-set_ne :
        (q : ℕ)
        → pid_of (get_or table i blank) ≢ pos q
        → pid_of a ≢ pos q
        → view (set table i a) q ≡ view table q
    view-set_ne q old new = by_slot (get_assigned_idx pid_of blank (pos q) table) refl
      where
        same :
            get_assigned_idx pid_of blank (pos q) (set table i a)
            ≡ get_assigned_idx pid_of blank (pos q) table
        same = get_assigned_idx-set_ne pid_of blank q table i a full lt old new

        by_slot :
            (s : Slot)
            → get_assigned_idx pid_of blank (pos q) table ≡ s
            → view (set table i a) q ≡ entry table s
        by_slot (at j) e =
            let hit : (j < max_slaves) × (pid_of (get_or table j blank) ≡ pos q) =
              get_assigned_idx_hit pid_of blank q table e in
            rw (same, e)
              (ap some (
                get_or-set_ne table i j a blank
                  (λ k. old (ap (λ x. pid_of (get_or table x blank)) k ∙ hit.1))))
        by_slot no_idx e = rw (same, e) refl
        by_slot out_of_bounds e = rw (same, e) refl

    pointwise :
        (p : ℕ) (v : Option A)
        → view (set table i a) p ≡ v
        → ((q : ℕ) → q ≢ p → view (set table i a) q ≡ view table q)
        → (q : ℕ) → view (set table i a) q ≡ (if q == p then v else view table q)
    pointwise p v here rest q = elim (ℕ_discrete q p) [
      | yes e ↦ rw (e, here) (ground arith)
      | no n ↦ rw (rest q n) (ground arith)
    ]

    here_at :
        (p : ℕ)
        → get_assigned_idx pid_of blank (pos p) (set table i a) ≡ at i
        → view (set table i a) p ≡ some a
    here_at p found = rw found (ap some (get_or-set_self table i a blank (omega (arith, full))))

    -- A pid that is new, written at the index that is assigned to it, is added to the map.
    pub view-claim :
        (p : ℕ)
        → pid_of a ≡ pos p
        → assign_idx pid_of blank (pos p) table ≡ at i
        → view table p ≡ none
        → (q : ℕ) → view (set table i a) q ≡ insert p a (view table) q
    view-claim p mine free new =
        let hit : (i < max_slaves) × (pid_of (get_or table i blank) ≡ no_pid) =
          assign_idx_hit pid_of blank p table free in
        pointwise p (some a)
          (here_at p (
            get_assigned_idx-assign pid_of blank p table i a full mine free
              (not_found table p new)))
          λ q n. view-set_ne q (λ e. ground (arith, hit)) (λ e. ground (arith, mine))

    -- A new entry for a pid at the index where it stands.
    pub view-write :
        (p : ℕ)
        → pid_of a ≡ pos p
        → get_assigned_idx pid_of blank (pos p) table ≡ at i
        → (q : ℕ) → view (set table i a) q ≡ insert p a (view table) q
    view-write p mine found =
        let hit : (i < max_slaves) × (pid_of (get_or table i blank) ≡ pos p) =
          get_assigned_idx_hit pid_of blank p table found in
        pointwise p (some a)
          (here_at p (
            get_assigned_idx-set_same pid_of blank (pos p) table i a full lt (mine ∙ sym hit.1)
            ∙ found))
          λ q n. view-set_ne q (λ e. ground (arith, hit)) (λ e. ground (arith, mine))

    -- A pid is taken out of the map by an entry without a pid at its index.
    pub view-erase :
        (p : ℕ)
        → Unique pid_of blank table
        → pid_of a ≡ no_pid
        → get_assigned_idx pid_of blank (pos p) table ≡ at i
        → (q : ℕ) → view (set table i a) q ≡ remove p (view table) q
    view-erase p unique gone found =
        pointwise p none (no_entry (view (set table i a) p) refl)
          λ q n. view-set_ne q (λ e. ground (arith, hit)) (λ e. ground (arith, gone))
      where
        hit : (i < max_slaves) × (pid_of (get_or table i blank) ≡ pos p)
        hit = get_assigned_idx_hit pid_of blank p table found

        no_entry : (v : Option A) → view (set table i a) p ≡ v → view (set table i a) p ≡ none
        no_entry none e = e
        no_entry (some b) e = absurd (
            let at_j = found_at (set table i a) p b e in
            ground (
              arith,
              at_j,
              hit,
              get_or-set table i (at_j.0) a blank (omega (arith, full)),
              unique i (at_j.0),
              gone,
            ))

    -- No pid stands twice after a write, if none but the old entry's had the new one.
    pub set-Unique :
        Unique pid_of blank table
        → ((j : ℕ)
            → j < max_slaves
            → pid_of (get_or table j blank) ≡ pid_of a
            → pid_of a ≢ no_pid
            → j ≡ i)
        → Unique pid_of blank (set table i a)
    set-Unique unique only x y hx hy used same =
        ground (arith, at_index x, at_index y, unique x y, only x, only y)
      where
        at_index :
            (j : ℕ) → get_or (set table i a) j blank ≡ (if i == j then a else get_or table j blank)
        at_index j = get_or-set table i j a blank (omega (arith, full))
