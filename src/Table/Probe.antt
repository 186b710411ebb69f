-- ===== src/Table/Probe.antt =====
-- What one run of the search finds, for any test.
use real_time_cyclic.Prelude.{
  ℕ, zero, suc, ◌+◌, ◌-◌, ◌%◌, ◌<◌, ◌≡◌, refl, ◌≢◌, inl, inr, Bool, true, false, List, arith,
  get_or, set, length, Bool-cases, get_or-set_self, get_or-set_ne, subst, ap,
}
use real_time_cyclic.Common.{max_slaves}
use real_time_cyclic.Table.{at, no_idx, out_of_bounds, probe}

module _ {A : Type 0} (test : A → Bool) (blank : A) where
  -- A hit is inside the table and passes the test.
  pub probe_hit :
      (n idx : ℕ) (table : List A) {i : ℕ}
      → probe test blank n idx table ≡ at i
      → idx < max_slaves
      → (i < max_slaves) × (test (get_or table i blank) ≡ true)
  unfolding probe
  probe_hit zero idx table e h = cc
  probe_hit (suc n) idx table e h = elim (Bool-cases (test (get_or table idx blank))) [
    | inl hit ↦ let e' : at idx ≡ at _ = rw hit at e in ground arith
    | inr miss ↦ probe_hit n ((idx + 1) % max_slaves) table (rw miss at e) (omega arith)
  ]

  -- A search never reads outside the table.
  pub probe_in_bounds : (n idx : ℕ) (table : List A) → probe test blank n idx table ≢ out_of_bounds
  unfolding probe
  probe_in_bounds zero idx table e = cc
  probe_in_bounds (suc n) idx table e =
      ground (arith, probe_in_bounds n ((idx + 1) % max_slaves) table)

  -- A search that gives up has seen every index that it passed fail.
  pub probe_miss :
      (n idx : ℕ) (table : List A)
      → probe test blank n idx table ≡ no_idx
      → idx < max_slaves
      → (k : ℕ) → k < n
      → test (get_or table ((idx + k) % max_slaves) blank) ≡ false
  unfolding probe
  probe_miss zero idx table e h k lt = elim lt [ ]
  probe_miss (suc n) idx table e h zero lt =
      let here : (idx + 0) % max_slaves ≡ idx = omega arith in rw here (ground arith)
  probe_miss (suc n) idx table e h (suc k) lt =
      let next : (idx + suc k) % max_slaves ≡ ((idx + 1) % max_slaves + k) % max_slaves =
        omega arith in
      rw next
        (probe_miss n ((idx + 1) % max_slaves) table (ground arith) (omega arith) k (omega arith))

  -- A full round of misses is a miss at every index.
  pub probe_miss_all :
      (idx : ℕ) (table : List A)
      → probe test blank max_slaves idx table ≡ no_idx
      → idx < max_slaves
      → (j : ℕ) → j < max_slaves
      → test (get_or table j blank) ≡ false
  probe_miss_all idx table e h j lt =
      let here : (idx + (j + max_slaves - idx) % max_slaves) % max_slaves ≡ j = omega arith in
      subst (λ i. test (get_or table i blank) ≡ false) here
        (probe_miss max_slaves idx table e h ((j + max_slaves - idx) % max_slaves) (omega arith))

-- Tables and tests that agree at every index give the same search.
pub probe_congr :
    {A : Type 0} (test test' : A → Bool) (blank : A) (table table' : List A)
    → ((j : ℕ) → j < max_slaves → test (get_or table j blank) ≡ test' (get_or table' j blank))
    → (n idx : ℕ) → idx < max_slaves
    → probe test blank n idx table ≡ probe test' blank n idx table'
unfolding probe
probe_congr test test' blank table table' same zero idx h = refl
probe_congr test test' blank table table' same (suc n) idx h =
    ground
      (arith, same idx h, probe_congr test test' blank table table' same n ((idx + 1) % max_slaves))

-- Filling the first free entry of a search makes the search for the filler stop there.
pub probe_after_set :
    {A : Type 0} (free mine : A → Bool) (blank : A) (table : List A) (a : A) (i : ℕ)
    → length table ≡ max_slaves
    → mine a ≡ true
    → (n idx : ℕ) → idx < max_slaves
    → probe free blank n idx table ≡ at i
    → probe mine blank n idx table ≡ no_idx
    → probe mine blank n idx (set table i a) ≡ at i
unfolding probe
probe_after_set free mine blank table a i full yes_a zero idx h found absent = cc
probe_after_set free mine blank table a i full yes_a (suc n) idx h found absent =
    elim (Bool-cases (free (get_or table idx blank))) [
      | inl hit ↦ ground (
        arith,
        get_or-set_self table idx a blank,
        λ (e : idx ≡ i). ap (λ j. mine (get_or (set table j a) idx blank)) e,
      )
      | inr miss ↦
          let later : probe free blank n ((idx + 1) % max_slaves) table ≡ at i = ground arith in
          let here : (i < max_slaves) × (free (get_or table i blank) ≡ true) =
            probe_hit free blank n ((idx + 1) % max_slaves) table later (omega arith) in
          let apart : i ≢ idx = λ e. ground (arith, ap (λ j. free (get_or table j blank)) e) in
          ground (
            arith,
            get_or-set_ne table i idx a blank apart,
            probe_after_set free mine blank table a i full yes_a n ((idx + 1) % max_slaves),
          )
    ]

-- A search stops at once at an entry that passes.
pub probe_first :
    {A : Type 0} (test : A → Bool) (blank : A) (n idx : ℕ) (table : List A)
    → test (get_or table idx blank) ≡ true
    → probe test blank (suc n) idx table ≡ at idx
unfolding probe
probe_first test blank n idx table h = rw h
