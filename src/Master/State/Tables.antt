-- ===== src/Master/State/Tables.antt =====
-- The table of segments: no pid stands twice, and connected slaves have different names.
use real_time_cyclic.Prelude.{
  ℕ, ◌<◌, ◌≡◌, ◌≢◌, true, false, List, get_or, set, length, length-set, get_or-set, arith, ◌∙◌,
  ◌==◌, if◌then◌else◌,
}
use real_time_cyclic.Common.{Shmseg, zeroed_shmseg, no_pid, max_slaves}
use real_time_cyclic.Common.Text.{c_string}
use real_time_cyclic.Table.Laws.{Unique}
use real_time_cyclic.Master.Reply.Connection.{Owned}
use real_time_cyclic.Master.State.{name_taken}
use real_time_cyclic.Master.State.Names.{name_taken-false}

pub record TableOk (table : List Shmseg) : Type 0 where
  pub full : length table ≡ max_slaves
  pub unique : Unique (λ g. g.pid) zeroed_shmseg table
  pub owned :
      (i : ℕ)
      → i < max_slaves
      → (get_or table i zeroed_shmseg).is_connected ≡ true
      → (get_or table i zeroed_shmseg).pid ≢ no_pid
  pub distinct :
      (i j : ℕ)
      → i < max_slaves
      → j < max_slaves
      → (get_or table i zeroed_shmseg).is_connected ≡ true
      → (get_or table j zeroed_shmseg).is_connected ≡ true
      → c_string (get_or table i zeroed_shmseg).name ≡ c_string (get_or table j zeroed_shmseg).name
      → i ≡ j

module _ (table : List Shmseg) (i : ℕ) (g : Shmseg) (ok : TableOk table) (lt : i < max_slaves)
    (taken : (get_or table i zeroed_shmseg).pid ≢ no_pid)
    (step : Owned
      (name_taken table i (get_or table i zeroed_shmseg).name max_slaves)
      (get_or table i zeroed_shmseg)
      g) where
  at_index :
      (j : ℕ)
      → get_or (set table i g) j zeroed_shmseg
        ≡ (if i == j then g else get_or table j zeroed_shmseg)
  at_index j = get_or-set table i j g zeroed_shmseg (omega (arith, ok.full))

  set-Unique : Unique (λ g. g.pid) zeroed_shmseg (set table i g)
  set-Unique a b ha hb used same =
      ground (arith, at_index a, at_index b, ok.unique a b, ok.unique i b, ok.unique a i)

  set-owned :
      (a : ℕ)
      → a < max_slaves
      → (get_or (set table i g) a zeroed_shmseg).is_connected ≡ true
      → (get_or (set table i g) a zeroed_shmseg).pid ≢ no_pid
  set-owned a ha on = ground (arith, at_index a, ok.owned a, ok.owned i)

  -- A name that need not be changed differs from that of every other connected slave.
  fresh :
      (a : ℕ)
      → a < max_slaves
      → a ≢ i
      → name_taken table i (get_or table i zeroed_shmseg).name max_slaves ≡ false
      → (get_or table a zeroed_shmseg).is_connected ≡ true
      → c_string (get_or table i zeroed_shmseg).name ≢ c_string (get_or table a zeroed_shmseg).name
  fresh a ha ne e on =
      name_taken-false table i (get_or table i zeroed_shmseg).name max_slaves e a ha ne
        (ok.owned a ha on)

  set-distinct :
      (a b : ℕ)
      → a < max_slaves
      → b < max_slaves
      → (get_or (set table i g) a zeroed_shmseg).is_connected ≡ true
      → (get_or (set table i g) b zeroed_shmseg).is_connected ≡ true
      → c_string (get_or (set table i g) a zeroed_shmseg).name
        ≡ c_string (get_or (set table i g) b zeroed_shmseg).name
      → a ≡ b
  set-distinct a b ha hb on_a on_b same = ground (
    arith,
    at_index a,
    at_index b,
    ok.distinct a b,
    ok.distinct i b,
    ok.distinct a i,
    fresh a,
    fresh b,
  )

  -- What one handler may do to one segment keeps the table.
  pub set-TableOk : TableOk (set table i g)
  set-TableOk = record {
    full = length-set table i g ∙ ok.full;
    unique = set-Unique;
    owned = set-owned;
    distinct = set-distinct;
  }
