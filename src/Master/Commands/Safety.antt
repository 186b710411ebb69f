-- ===== src/Master/Commands/Safety.antt =====
-- What the configurator's commands do to the table of segments.
use real_time_cyclic.Prelude.{ℕ, ◌<◌, ◌≡◌, ◌≢◌, ◌⊎◌, ◌∙◌, inl, inr, refl, arith, pos, ap, sym}
use real_time_cyclic.Common.{
  Ret, rtc_success, rtc_error, Request, stop_master, connect_slave, disconnect_slave,
  start_slave_cycle, stop_slave_cycle, zeroed_shmseg, max_slaves, nack,
}
use real_time_cyclic.Table.{Slot, at, no_idx, out_of_bounds, get_assigned_idx}
use real_time_cyclic.Table.Exact.{get_assigned_idx_exact}
use real_time_cyclic.Table.Laws.{get_assigned_idx_hit}
use real_time_cyclic.Os.{
  Os, M, Outcome, Ensures, Ensures-bind, Survives, Survives-bind, Returns, fault, done, blocked,
}
use real_time_cyclic.Master.Link.{Link}
use real_time_cyclic.Master.Send.{
  send_configurator_nack_response, send_change_name_slave_request, send_connect_slave_request,
  send_disconnect_slave_request, send_start_cycle_slave_request, send_stop_cycle_slave_request,
}
use real_time_cyclic.Master.Send.Requests.{
  OwnedOrFree, Sending, send, send-OwnedOrFree, disconnect, start_cycle, stop_cycle, change_name,
  connect,
}
use real_time_cyclic.Master.State.{Master, segment, link_at, put_back, on_segment, on_control}
use real_time_cyclic.Master.State.Tables.{set-TableOk}
use real_time_cyclic.Master.Processor.Invariant.{IsSound, put_back-Ensures}
use real_time_cyclic.Master.Processor.Admit.{lookup_pid}
use real_time_cyclic.Master.Commands.{
  handle_configurator_connect_slave_request, handle_configurator_disconnect_slave_request,
  handle_configurator_start_cycle_slave_request, handle_configurator_stop_cycle_slave_request,
  dispatch_command, handle_command, send_checked, send_unchecked, nack_failure, nack_unless,
  affected_slot,
}

module _ (os : Os) (m : Master) (ok : IsSound m) (p : ℕ) where
  send-IsSound :
      (r : Sending) (i : ℕ)
      → lookup_pid (pos p) m ≡ at i
      → Ensures IsSound (on_segment i (send os r) m)
  unfolding on_segment
  send-IsSound r i found =
      let hit : (i < max_slaves) × ((segment i m).pid ≡ pos p) =
        get_assigned_idx_hit (λ g. g.pid) zeroed_shmseg p m.shm.slave_shmseg found in
      put_back-Ensures (OwnedOrFree (link_at i m)) IsSound i m
        (λ l k. set-TableOk m.shm.slave_shmseg i l.seg ok hit.0 (λ e. ground arith) (ground arith))
        (send os r (link_at i m)) (send-OwnedOrFree os r (link_at i m))

  checked-IsSound :
      (r : Sending) (s : Slot)
      → lookup_pid (pos p) m ≡ s
      → Ensures IsSound (send_checked s (send os r) m)
  checked-IsSound r (at i) e = send-IsSound r i e
  checked-IsSound r no_idx e = ok
  checked-IsSound r out_of_bounds e = tt

  unchecked-IsSound :
      (r : Sending) (s : Slot)
      → lookup_pid (pos p) m ≡ s
      → Ensures IsSound (send_unchecked s (send os r) m)
  unchecked-IsSound r (at i) e = send-IsSound r i e
  unchecked-IsSound r no_idx e = tt
  unchecked-IsSound r out_of_bounds e = tt

nack-IsSound :
    (os : Os) (m : Master)
    → IsSound m
    → Ensures IsSound (on_control (send_configurator_nack_response os) m)
unfolding on_control send_configurator_nack_response
nack-IsSound os m ok = ground arith

failure-IsSound :
    (os : Os) (r : Ret) (m : Master) → IsSound m → Ensures IsSound (nack_failure os r m)
failure-IsSound os rtc_success m ok = ok
failure-IsSound os rtc_error m ok = nack-IsSound os m ok

nack_unless-IsSound :
    (os : Os) (h : M Master Ret) (m : Master)
    → Ensures IsSound (h m)
    → Ensures IsSound (nack_unless os h m)
nack_unless-IsSound os h m v =
    Ensures-bind IsSound IsSound h (nack_failure os) m (λ t k. k)
      (λ r t k. failure-IsSound os r t k) v

connect-IsSound :
    (os : Os) (m : Master)
    → IsSound m
    → Ensures IsSound (handle_configurator_connect_slave_request os m)
unfolding handle_configurator_connect_slave_request
connect-IsSound os m ok = ground arith

pub looked_up :
    (m : Master) (p : ℕ)
    → m.control.affected_slave_pid ≡ pos p
    → lookup_pid (pos p) m ≡ affected_slot m
looked_up m p e = ap (λ q. get_assigned_idx (λ g. g.pid) zeroed_shmseg q m.shm.slave_shmseg) (sym e)

dispatch-IsSound :
    (os : Os) (m : Master) (p : ℕ) (r : Request)
    → IsSound m
    → m.control.affected_slave_pid ≡ pos p
    → Ensures IsSound (dispatch_command os r m)
unfolding dispatch_command handle_configurator_disconnect_slave_request send
    handle_configurator_start_cycle_slave_request handle_configurator_stop_cycle_slave_request
dispatch-IsSound os m p stop_master ok e = ok
dispatch-IsSound os m p connect_slave ok e =
    nack_unless-IsSound os (handle_configurator_connect_slave_request os) m
      (connect-IsSound os m ok)
dispatch-IsSound os m p disconnect_slave ok e =
    nack_unless-IsSound os (handle_configurator_disconnect_slave_request os) m
      (unchecked-IsSound os m ok p disconnect (affected_slot m) (looked_up m p e))
dispatch-IsSound os m p start_slave_cycle ok e =
    nack_unless-IsSound os (handle_configurator_start_cycle_slave_request os) m
      (checked-IsSound os m ok p start_cycle (affected_slot m) (looked_up m p e))
dispatch-IsSound os m p stop_slave_cycle ok e =
    nack_unless-IsSound os (handle_configurator_stop_cycle_slave_request os) m
      (checked-IsSound os m ok p stop_cycle (affected_slot m) (looked_up m p e))
dispatch-IsSound os m p _ ok e = ok

-- A command about a process (whose pid is not negative) keeps the table sound if it ends or sleeps.
pub handle_command-Ensures :
    (os : Os) (m : Master) (p : ℕ)
    → IsSound m
    → m.control.affected_slave_pid ≡ pos p
    → Ensures IsSound (handle_command os m)
unfolding handle_command
handle_command-Ensures os m p ok e = dispatch-IsSound os m p m.control.request ok e

-- An outcome that is not a fault.
abbrev pub Runs : {S A : Type 0} → Outcome S A → Type 0
Runs o = Survives (λ _. Unit {0}) o

Runs-Survives :
    {S A : Type 0} (P : S → Type 0) (o : Outcome S A) → Runs o → Ensures P o → Survives P o
Runs-Survives P (done a s) r h = h
Runs-Survives P (blocked s) r h = h
Runs-Survives P fault r h = absurd r

send-Runs : (os : Os) (r : Sending) (l : Link) → Runs (send os r l)
unfolding send send_change_name_slave_request send_connect_slave_request
    send_disconnect_slave_request send_start_cycle_slave_request send_stop_cycle_slave_request
send-Runs os change_name l = ground arith
send-Runs os connect l = ground arith
send-Runs os disconnect l = ground arith
send-Runs os start_cycle l = ground arith
send-Runs os stop_cycle l = ground arith

put_back-Runs : (i : ℕ) (m : Master) (o : Outcome Link Ret) → Runs o → Runs (put_back i m o)
unfolding put_back
put_back-Runs i m (done a l) h = tt
put_back-Runs i m (blocked l) h = tt
put_back-Runs i m fault h = absurd h

on_segment-Runs : (os : Os) (r : Sending) (i : ℕ) (m : Master) → Runs (on_segment i (send os r) m)
unfolding on_segment
on_segment-Runs os r i m =
    put_back-Runs i m (send os r (link_at i m)) (send-Runs os r (link_at i m))

checked-Runs :
    (os : Os) (r : Sending) (s : Slot) (m : Master)
    → s ≢ out_of_bounds
    → Runs (send_checked s (send os r) m)
checked-Runs os r (at i) m h = on_segment-Runs os r i m
checked-Runs os r no_idx m h = tt
checked-Runs os r out_of_bounds m h = absurd (h refl)

nack-Runs : (os : Os) (m : Master) → Runs (on_control (send_configurator_nack_response os) m)
unfolding on_control send_configurator_nack_response
nack-Runs os m = ground arith

failure-Runs : (os : Os) (r : Ret) (m : Master) → Runs (nack_failure os r m)
failure-Runs os rtc_success m = tt
failure-Runs os rtc_error m = nack-Runs os m

nack_unless-Runs :
    (os : Os) (h : M Master Ret) (m : Master) → Runs (h m) → Runs (nack_unless os h m)
nack_unless-Runs os h m r =
    Survives-bind (λ _. Unit {0}) (λ _. Unit {0}) h (nack_failure os) m (λ t k. k)
      (λ ret t k. failure-Runs os ret t) r

connect-Runs : (os : Os) (m : Master) → Runs (handle_configurator_connect_slave_request os m)
unfolding handle_configurator_connect_slave_request
connect-Runs os m = ground arith

-- No segment has this pid.
abbrev pub Absent : ℕ → Master → Type 0
Absent p m = (j : ℕ) → j < max_slaves → (segment j m).pid ≢ pos p

-- Where the pid of a command stands in the table: at a segment, or nowhere.
affected_cases :
    (m : Master) (p : ℕ)
    → m.control.affected_slave_pid ≡ pos p
    → ((i : ℕ) × (affected_slot m ≡ at i) × (i < max_slaves) × ((segment i m).pid ≡ pos p))
      ⊎ ((affected_slot m ≡ no_idx) × Absent p m)
affected_cases m p e =
    elim (get_assigned_idx_exact (λ g. g.pid) zeroed_shmseg p m.shm.slave_shmseg) [
      | inl (i, found, lt, same) ↦ inl (i, sym (looked_up m p e) ∙ found, lt, same)
      | inr (miss, absent) ↦ inr (sym (looked_up m p e) ∙ miss, absent)
    ]

affected_in_bounds :
    (m : Master) (p : ℕ) → m.control.affected_slave_pid ≡ pos p → affected_slot m ≢ out_of_bounds
affected_in_bounds m p e out = elim (affected_cases m p e) [
  | inl (i, found, lt, same) ↦ absurd (ground (arith, found, out))
  | inr (miss, absent) ↦ absurd (ground (arith, miss, out))
]

dispatch-Runs :
    (os : Os) (m : Master) (p : ℕ) (r : Request)
    → m.control.affected_slave_pid ≡ pos p
    → (r ≡ disconnect_slave → (i : ℕ) × (i < max_slaves) × ((segment i m).pid ≡ pos p))
    → Runs (dispatch_command os r m)
unfolding dispatch_command handle_configurator_disconnect_slave_request send
    handle_configurator_start_cycle_slave_request handle_configurator_stop_cycle_slave_request
dispatch-Runs os m p stop_master e has = tt
dispatch-Runs os m p connect_slave e has =
    nack_unless-Runs os (handle_configurator_connect_slave_request os) m (connect-Runs os m)
dispatch-Runs os m p disconnect_slave e has =
    nack_unless-Runs os (handle_configurator_disconnect_slave_request os) m
      (elim (affected_cases m p e) [
        | inl (i, found, lt, same) ↦ rw found (on_segment-Runs os disconnect i m)
        | inr (miss, absent) ↦ absurd (absent (has refl).0 (has refl).1 (has refl).2)
      ])
dispatch-Runs os m p start_slave_cycle e has =
    nack_unless-Runs os (handle_configurator_start_cycle_slave_request os) m
      (checked-Runs os start_cycle (affected_slot m) m (affected_in_bounds m p e))
dispatch-Runs os m p stop_slave_cycle e has =
    nack_unless-Runs os (handle_configurator_stop_cycle_slave_request os) m
      (checked-Runs os stop_cycle (affected_slot m) m (affected_in_bounds m p e))
dispatch-Runs os m p _ e has = tt

-- A command about a process (whose pid is not negative) neither leaves the table of segments nor
-- breaks its soundness, if a command to disconnect is about a process that has a segment: the handler
-- ends or sleeps, with every pid once in the table, an owner for every connected segment, and no two
-- connected slaves with the same name.
pub handle_command-IsSound :
    (os : Os) (m : Master) (p : ℕ)
    → IsSound m
    → m.control.affected_slave_pid ≡ pos p
    → (m.control.request ≡ disconnect_slave
        → (i : ℕ) × (i < max_slaves) × ((segment i m).pid ≡ pos p))
    → Survives IsSound (handle_command os m)
handle_command-IsSound os m p ok e has =
    Runs-Survives IsSound (handle_command os m)
      (unfold handle_command in dispatch-Runs os m p m.control.request e has)
      (handle_command-Ensures os m p ok e)

-- The master with this command in the control segment.
abbrev pub commanded : Request → Master → Master
commanded r m = record m { control = record (m.control) { request = r } }

-- The command is refused: the answer is NACK, and the table and the threads are as before.
abbrev pub Nacked : Master → Outcome Master (Unit {0}) → Type 0
Nacked m o =
    Returns (λ _ t. (t.control.response ≡ nack) × (t.shm ≡ m.shm) × (t.threads ≡ m.threads)) o

refused_at :
    (os : Os) (r : Sending) (s : Slot) (m : Master)
    → s ≡ no_idx
    → Nacked m (nack_unless os (send_checked s (send os r)) m)
unfolding on_control send_configurator_nack_response
refused_at os r (at i) m e = absurd (ground (arith, e))
refused_at os r no_idx m e = ground arith
refused_at os r out_of_bounds m e = absurd (ground (arith, e))

outside_at :
    (os : Os) (r : Sending) (s : Slot) (m : Master)
    → s ≡ no_idx
    → nack_unless os (send_unchecked s (send os r)) m ≡ fault
outside_at os r (at i) m e = absurd (ground (arith, e))
outside_at os r no_idx m e = refl
outside_at os r out_of_bounds m e = absurd (ground (arith, e))

unknown_slot :
    (os : Os) (m : Master)
    → affected_slot m ≡ no_idx
    → (handle_command os (commanded disconnect_slave m) ≡ fault)
      × Nacked m (handle_command os (commanded start_slave_cycle m))
      × Nacked m (handle_command os (commanded stop_slave_cycle m))
unfolding handle_command dispatch_command handle_configurator_disconnect_slave_request send
    handle_configurator_start_cycle_slave_request handle_configurator_stop_cycle_slave_request
unknown_slot os m e = (
  outside_at os disconnect (affected_slot m) (commanded disconnect_slave m) e,
  refused_at os start_cycle (affected_slot m) (commanded start_slave_cycle m) e,
  refused_at os stop_cycle (affected_slot m) (commanded stop_slave_cycle m) e,
)

-- While no segment has the pid that a command is about, a command to disconnect makes the master use
-- an index outside the table, and one to start or to stop the cycle is refused with NACK, the table and
-- the threads unchanged.
pub disconnect_unknown :
    (os : Os) (m : Master) (p : ℕ)
    → m.control.affected_slave_pid ≡ pos p
    → Absent p m
    → (handle_command os (commanded disconnect_slave m) ≡ fault)
      × Nacked m (handle_command os (commanded start_slave_cycle m))
      × Nacked m (handle_command os (commanded stop_slave_cycle m))
disconnect_unknown os m p e absent = elim (affected_cases m p e) [
  | inl (i, found, lt, same) ↦ absurd (absent i lt same)
  | inr (miss, gone) ↦ unknown_slot os m miss
]
