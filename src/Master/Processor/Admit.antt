-- ===== src/Master/Processor/Admit.antt =====
-- A new processor thread as far as its loop: the segment that it claims.
use real_time_cyclic.Prelude.{
  ℕ, suc, ◌<◌, ◌≡◌, refl, ◌≢◌, false, ◌∷◌, length-set, get_or-set, get_or-set_self, arith, ap, ◌∙◌,
  ◌==◌, if◌then◌else◌, ℤ, pos,
}
use real_time_cyclic.Common.{
  Shmseg, rtc_success, zeroed_shmseg, no_pid, max_slaves, sigusr1, connect_slave,
}
use real_time_cyclic.Table.{Slot, at, no_idx, out_of_bounds, assign_idx, get_assigned_idx}
use real_time_cyclic.Table.Laws.{
  get_assigned_idx_miss, assign_idx_hit, get_assigned_idx-set_ne, get_assigned_idx-set_same,
  get_assigned_idx-assign,
}
use real_time_cyclic.Os.{Os, Ensures, Ensures-bind, Returns, done, m_to_s_request}
use real_time_cyclic.Master.Link.{Link}
use real_time_cyclic.Master.Send.{send_connect_slave_request}
use real_time_cyclic.Master.Send.Requests.{
  connect, send, send_ready, OwnedOrFree, send_connect-OwnedOrFree,
}
use real_time_cyclic.Master.State.{Master, segment, link_at, write_link, on_segment}
use real_time_cyclic.Master.State.Tables.{set-TableOk}
use real_time_cyclic.Master.Processor.{
  Thread, serving, claim, admit, admit_slot, claim_slot, after_connect,
}
use real_time_cyclic.Master.Processor.Invariant.{IsSound, Serves, put_back-Ensures}

-- `getAssignedShmsegIdx(pid)` of the master.
abbrev pub lookup_pid : ℤ → Master → Slot
lookup_pid pid m = get_assigned_idx (λ g. g.pid) zeroed_shmseg pid m.shm.slave_shmseg

abbrev pub free_slot : ℤ → Master → Slot
free_slot pid m = assign_idx (λ g. g.pid) zeroed_shmseg pid m.shm.slave_shmseg

module _ (p i : ℕ) (m : Master) (ok : IsSound m) (new : lookup_pid (pos p) m ≡ no_idx)
    (free : free_slot (pos p) m ≡ at i) where
  in_range : (i < max_slaves) × ((segment i m).pid ≡ no_pid)
  in_range = assign_idx_hit (λ g. g.pid) zeroed_shmseg p m.shm.slave_shmseg free

  absent : (j : ℕ) → j < max_slaves → (segment j m).pid ≢ pos p
  absent = get_assigned_idx_miss (λ g. g.pid) zeroed_shmseg p m.shm.slave_shmseg new

  claimed :
      (j : ℕ)
      → segment j (claim i (pos p) m)
        ≡ (if i == j then record (segment i m) { pid = pos p } else segment j m)
  unfolding claim
  claimed j =
      get_or-set m.shm.slave_shmseg i j (record (segment i m) { pid = pos p }) zeroed_shmseg
        (omega (arith, ok.full, in_range))

  pub claim-Serves : Serves i (claim i (pos p) m)
  unfolding claim
  claim-Serves = (
    record {
      full = length-set m.shm.slave_shmseg i _ ∙ ok.full;
      unique = λ a b ha hb used same.
          ground (arith, claimed a, claimed b, ok.unique a b, absent a, absent b);
      owned = λ a ha on. ground (arith, claimed a, ok.owned a);
      distinct = λ a b ha hb on_a on_b same.
          ground (arith, claimed a, claimed b, ok.distinct a b, ok.owned i, in_range);
    },
    in_range.0,
    λ e. ground (arith, claimed i),
  )

  -- A new process that finds a free segment is served there: it is looked up at that index.
  pub lookup-claim : lookup_pid (pos p) (claim i (pos p) m) ≡ at i
  unfolding claim
  lookup-claim =
      get_assigned_idx-assign (λ g. g.pid) zeroed_shmseg p m.shm.slave_shmseg i
        (record (segment i m) { pid = pos p }) ok.full refl free new

  -- Every other process is looked up as before.
  pub lookup-claim_ne :
      (q : ℕ) → q ≢ p → lookup_pid (pos q) (claim i (pos p) m) ≡ lookup_pid (pos q) m
  unfolding claim
  lookup-claim_ne q ne =
      get_assigned_idx-set_ne (λ g. g.pid) zeroed_shmseg q m.shm.slave_shmseg i
        (record (segment i m) { pid = pos p }) ok.full in_range.0 (λ e. ground (arith, in_range))
        (λ e. ground arith)

  connect-IsSound :
      (os : Os) → Ensures IsSound (on_segment i (send_connect_slave_request os) (claim i (pos p) m))
  unfolding on_segment
  connect-IsSound os =
      let n : Master = claim i (pos p) m in
      put_back-Ensures (OwnedOrFree (link_at i n)) IsSound i n
        (λ l k.
          set-TableOk n.shm.slave_shmseg i l.seg claim-Serves.0 claim-Serves.1 claim-Serves.2
            (ground arith))
        (send_connect_slave_request os (link_at i n)) (send_connect-OwnedOrFree os (link_at i n))

claim_slot-IsSound :
    (os : Os) (p : ℕ) (m : Master) (slot : Slot)
    → IsSound m
    → lookup_pid (pos p) m ≡ no_idx
    → free_slot (pos p) m ≡ slot
    → Ensures IsSound (claim_slot os (pos p) slot m)
unfolding claim_slot
claim_slot-IsSound os p m (at i) ok new free =
    Ensures-bind IsSound IsSound (on_segment i (send_connect_slave_request os)) (after_connect i)
      (claim i (pos p) m) (λ t k. k) (λ r t k. ground arith) (connect-IsSound p i m ok new free os)
claim_slot-IsSound os p m no_idx ok new free = ok
claim_slot-IsSound os p m out_of_bounds ok new free = tt

admit_slot-IsSound :
    (os : Os) (p : ℕ) (m : Master) (slot : Slot)
    → IsSound m
    → lookup_pid (pos p) m ≡ slot
    → Ensures IsSound (admit_slot os (pos p) slot m)
unfolding admit_slot
admit_slot-IsSound os p m (at i) ok known = ok
admit_slot-IsSound os p m no_idx ok new =
    claim_slot-IsSound os p m (free_slot (pos p) m) ok new refl
admit_slot-IsSound os p m out_of_bounds ok known = tt

-- Admission of a process keeps the table sound, whether or not it finds a segment and whatever calls
-- fail.
pub admit-IsSound :
    (os : Os) (p : ℕ) (m : Master) → IsSound m → Ensures IsSound (admit os (pos p) m)
unfolding admit
admit-IsSound os p m ok = admit_slot-IsSound os p m (lookup_pid (pos p) m) ok refl

-- The thread serves segment `i`, where the process is looked up, and CONNECT_SLAVE was sent there.
abbrev pub Requested : ℕ → ℕ → ℕ → Master → Thread → Master → Type 0
Requested p i v m t m' =
    (t ≡ serving i)
    × (lookup_pid (pos p) m' ≡ at i)
    × ((q : ℕ) → q ≢ p → lookup_pid (pos q) m' ≡ lookup_pid (pos q) m)
    × (m'.sent ≡ (pos p, sigusr1) ∷ m.sent)
    × ((segment i m').req_m_to_s ≡ connect_slave)
    × ((segment i m').sem_m_to_s_request ≡ v)

module _ (os : Os) (p i v : ℕ) (m : Master) (ok : IsSound m) (new : lookup_pid (pos p) m ≡ no_idx)
    (free : free_slot (pos p) m ≡ at i) (sem : (segment i m).sem_m_to_s_request ≡ suc v)
    (wait : os.sem_wait_fails m_to_s_request ≡ false)
    (kill : os.kill_fails (pos p) sigusr1 ≡ false) where
  -- The link of the claimed segment after the request.
  abbrev pub requested : Link
  requested = record (link_at i (claim i (pos p) m)) {
    seg = record ((link_at i (claim i (pos p) m)).seg) {
      sem_m_to_s_request = v;
      req_m_to_s = connect_slave;
    };
    sent = ((link_at i (claim i (pos p) m)).seg.pid, sigusr1) ∷ (claim i (pos p) m).sent;
  }

  pub here : segment i (claim i (pos p) m) ≡ record (segment i m) { pid = pos p }
  unfolding claim
  here =
      get_or-set_self m.shm.slave_shmseg i (record (segment i m) { pid = pos p }) zeroed_shmseg
        (omega (arith, ok.full, in_range p i m ok new free))

  sends_connect :
      send_connect_slave_request os (link_at i (claim i (pos p) m)) ≡ done rtc_success requested
  unfolding send
  sends_connect =
      send_ready os connect (link_at i (claim i (pos p) m)) v
        (ap (λ (g : Shmseg). g.sem_m_to_s_request) here ∙ sem) (λ e. cc) wait
        (ap (λ (g : Shmseg). os.kill_fails g.pid sigusr1) here ∙ kill)

  -- The state after the request.
  pub admit-requested :
      admit os (pos p) m ≡ done (serving i) (write_link i (claim i (pos p) m) requested)
  unfolding admit admit_slot claim_slot on_segment
  admit-requested = rw (new, free) (cc sends_connect)

  -- A process that has no segment yet, while segment `i` is the free one that its search finds, is
  -- sent CONNECT_SLAVE there, if that segment's request semaphore is free and no call fails: it is
  -- then looked up at `i`, and every other process is looked up as before.
  pub admit-lookup : Returns (Requested p i v m) (admit os (pos p) m)
  admit-lookup = rw admit-requested (
    refl,
    found,
    others,
    unfold claim in ap (λ (g : Shmseg). (g.pid, sigusr1) ∷ m.sent) here,
    ap (λ (g : Shmseg). g.req_m_to_s) there,
    ap (λ (g : Shmseg). g.sem_m_to_s_request) there,
  )
    where
      n : Master
      n = claim i (pos p) m

      there : segment i (write_link i n requested) ≡ requested.seg
      there = get_or-set_self n.shm.slave_shmseg i requested.seg zeroed_shmseg (
          omega
            (arith, (claim-Serves p i m ok new free).0.full, (claim-Serves p i m ok new free).1))

      kept : (pid : ℤ) → lookup_pid pid (write_link i n requested) ≡ lookup_pid pid n
      kept pid =
          get_assigned_idx-set_same (λ g. g.pid) zeroed_shmseg pid n.shm.slave_shmseg i
            requested.seg (claim-Serves p i m ok new free).0.full (claim-Serves p i m ok new free).1
            refl

      found : lookup_pid (pos p) (write_link i n requested) ≡ at i
      found = kept (pos p) ∙ lookup-claim p i m ok new free

      others :
          (q : ℕ) → q ≢ p → lookup_pid (pos q) (write_link i n requested) ≡ lookup_pid (pos q) m
      others q ne = kept (pos q) ∙ lookup-claim_ne p i m ok new free q ne
