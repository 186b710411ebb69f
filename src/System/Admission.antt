-- ===== src/System/Admission.antt =====
-- src/master.c: the admission of a process, and the requests for names.
use real_time_cyclic.Prelude.{
  ℕ, ◌<◌, ◌≡◌, ◌≢◌, refl, sym, ap, ◌∙◌, true, arith, get_or-set_self, pos,
}
use real_time_cyclic.Common.{Shmseg, Ret, rtc_success, rtc_error, max_slaves, zeroed_shmseg, no_pid}
use real_time_cyclic.Table.{Slot, at, no_idx, out_of_bounds}
use real_time_cyclic.Table.Laws.{assign_idx_hit}
use real_time_cyclic.Os.{Os, Ensures, Ensures-bind, Ensures-and}
use real_time_cyclic.Master.Link.{Link}
use real_time_cyclic.Master.Send.{send_connect_slave_request}
use real_time_cyclic.Master.State.{Master, segment, link_at, on_segment}
use real_time_cyclic.Master.Processor.{claim, claim_slot, admit_slot, admit, after_connect}
use real_time_cyclic.Master.Processor.Invariant.{IsSound, put_back-Ensures}
use real_time_cyclic.Master.Processor.Admit.{lookup_pid, free_slot, claim-Serves, admit-IsSound}
use real_time_cyclic.System.Local.{Local, OnLink, All, Calm, put-All}

module _ (P : Shmseg → Type 0) (inv : Local P) where
  module _ (os : Os) (p i : ℕ) (m : Master) (c : Calm P m) (new : lookup_pid (pos p) m ≡ no_idx)
      (free : free_slot (pos p) m ≡ at i) where
    in_range : (i < max_slaves) × ((segment i m).pid ≡ no_pid)
    in_range = assign_idx_hit (λ g. g.pid) zeroed_shmseg p m.shm.slave_shmseg free

    -- A segment without an owner is not connected.
    offline : (segment i m).is_connected ≢ true
    offline on = c.0.owned i in_range.0 on in_range.1

    claim-All : All P (claim i (pos p) m)
    unfolding claim
    claim-All =
        put-All P i m (record (link_at i m) { seg = record (segment i m) { pid = pos p } }) c
          in_range.0 (inv.claims (segment i m) p offline (c.1 i in_range.0))

    here : segment i (claim i (pos p) m) ≡ record (segment i m) { pid = pos p }
    unfolding claim
    here =
        get_or-set_self m.shm.slave_shmseg i (record (segment i m) { pid = pos p }) zeroed_shmseg
          (omega (arith, c.0.full, in_range))

    connect-All : Ensures (All P) (on_segment i (send_connect_slave_request os) (claim i (pos p) m))
    unfolding on_segment
    connect-All =
        let l : Link = link_at i (claim i (pos p) m) in
        put_back-Ensures (OnLink P) (All P) i (claim i (pos p) m)
          (λ l k.
            put-All P i (claim i (pos p) m) l ((claim-Serves p i m c.0 new free).0, claim-All)
              in_range.0 k)
          (send_connect_slave_request os l)
          (inv.connects os l (λ on. offline (ap (λ (g : Shmseg). g.is_connected) (sym here) ∙ on))
            (claim-All i in_range.0))

  module _ (os : Os) (p : ℕ) (m : Master) (c : Calm P m) where
    claim_slot-All :
        (slot : Slot)
        → lookup_pid (pos p) m ≡ no_idx
        → free_slot (pos p) m ≡ slot
        → Ensures (All P) (claim_slot os (pos p) slot m)
    unfolding claim_slot
    claim_slot-All (at i) new free =
        Ensures-bind (All P) (All P) (on_segment i (send_connect_slave_request os))
          (after_connect i) (claim i (pos p) m) (λ t k. k) (λ r t k. after-All i r t k)
          (connect-All os p i m c new free)
      where
        after-All : (i : ℕ) (r : Ret) (t : Master) → All P t → Ensures (All P) (after_connect i r t)
        after-All i rtc_success t k = k
        after-All i rtc_error t k = k
    claim_slot-All no_idx new free = c.1
    claim_slot-All out_of_bounds new free = tt

    admit_slot-All :
        (slot : Slot) → lookup_pid (pos p) m ≡ slot → Ensures (All P) (admit_slot os (pos p) slot m)
    unfolding admit_slot
    admit_slot-All (at i) known = c.1
    admit_slot-All no_idx new = claim_slot-All (free_slot (pos p) m) new refl
    admit_slot-All out_of_bounds known = tt

    admit-All : Ensures (All P) (admit os (pos p) m)
    unfolding admit
    admit-All = admit_slot-All (lookup_pid (pos p) m) refl

    pub admit-Calm : Ensures (Calm P) (admit os (pos p) m)
    admit-Calm =
        Ensures-and IsSound (All P) (admit os (pos p) m) (admit-IsSound os p m c.0) admit-All
