-- ===== src/System/Handshake.antt =====
-- A new slave is connected: the master's request, the slave's answer, and what the master does then.
pub mod Connects
use real_time_cyclic.Prelude.{
  ℕ, zero, suc, ◌+◌, ◌<◌, ◌≡◌, refl, sym, ap, ◌∙◌, subst, ◌⊎◌, inl, inr, arith, ℤ, pos, Bool, true,
  false, Bool-cases, List, ◌∷◌, length, length-set, get_or, set, get_or-set_self, some,
}
use real_time_cyclic.Common.{
  Shmseg, ControlShm, zeroed_shmseg, max_slaves, no_pid, connect_slave, change_slave_name, Response,
  ack, sigusr1, sigusr2, Ret, rtc_success,
}
use real_time_cyclic.Common.Text.{c_string, strcpy}
use real_time_cyclic.Common.Text.Laws.{IsText, strcpy_fits}
use real_time_cyclic.Table.{at, no_idx}
use real_time_cyclic.Os.{
  Os, reliable, Returns, returned, done, blocked, fault, M, Outcome, bind-done, ◌>>=◌, ◌>>◌,
  sig_semaphore,
}
use real_time_cyclic.Master.Link.{Link}
use real_time_cyclic.Master.Reply.{handle_slave_response, unconnected_response}
use real_time_cyclic.Master.State.{
  Master, segment, link_at, write_link, on_segment, put_back, must_change_name,
}
use real_time_cyclic.Master.Processor.{
  Thread, serving, claim, admit, process_signal, wait_signal, choose_handler,
}
use real_time_cyclic.Master.Processor.Invariant.{IsSound, Serves}
use real_time_cyclic.Master.Processor.Admit.{
  lookup_pid, free_slot, requested, here, admit-requested, admit-lookup, Requested, claim-Serves,
}
use real_time_cyclic.Master.Init.{async_signal_handler, count_signal}
use real_time_cyclic.Table.Laws.{get_assigned_idx-set_same, assign_idx_hit}
use real_time_cyclic.Master.Request.{slave_request_has_errors}
use real_time_cyclic.Slave.Node.{Self, Node, send_master_ack_response, kill}
use real_time_cyclic.Slave.Requests.{
  handle_master_request, dispatch_master_request, handle_connect_slave_request,
}
use real_time_cyclic.Slave.Signals
use real_time_cyclic.System.Steps.{node, write_seg}

-- The segment of a slave that has acknowledged CONNECT_SLAVE.
pub record Acknowledged (g : Shmseg) : Type 0 where
  pub unconnected : g.is_connected ≡ false
  pub asked : g.req_m_to_s ≡ connect_slave
  pub answered : g.res_s_to_m ≡ ack
  pub outstanding : g.sem_m_to_s_request ≡ 0
  pub idle : g.sem_s_to_m_request ≡ 1
  pub silent : g.shmseg_error_current_size ≡ 0

-- What the master makes of the answer: the slave is connected and the configurator is told, or the
-- slave is asked for another name.
abbrev pub Connects : Bool → Link → Link → Type 0
Connects must l l' =
    ((must ≡ false)
      × (l'.seg ≡ record (l.seg) { is_connected = true; sem_m_to_s_request = 1 })
      × (l'.control.response ≡ ack)
      × (l'.sent ≡ (l.control.configurator_pid, sigusr2) ∷ l.sent))
    ⊎ ((must ≡ true)
        × (l'.seg ≡ record (l.seg) { req_m_to_s = change_slave_name; sem_m_to_s_request = 0 })
        × (l'.control ≡ l.control)
        × (l'.sent ≡ (l.seg.pid, sigusr1) ∷ l.sent))

response-Connects :
    (must : Bool) (l : Link)
    → Acknowledged l.seg
    → Returns
        (λ ret l'. (ret ≡ rtc_success) × Connects must l l')
        (handle_slave_response reliable must l)
unfolding handle_slave_response unconnected_response
response-Connects must l a = ground (arith, a)

-- The master's round for the signal.
choose-done :
    (i : ℕ) (m : Master) (l' : Link)
    → Acknowledged (segment i m)
    → handle_slave_response reliable (must_change_name i m) (link_at i m) ≡ done rtc_success l'
    → choose_handler reliable i m ≡ done (serving i) (write_link i m l')
unfolding choose_handler on_segment put_back
choose-done i m l' a e = ground (arith, a, e)

-- The count of the signal is taken.
abbrev pub taken : ℕ → ℕ → Master → Master
taken i v m = record m { sig_semaphore = set m.sig_semaphore i v }

process-choose :
    (i v : ℕ) (m : Master)
    → Acknowledged (segment i m)
    → get_or m.sig_semaphore i 0 ≡ suc v
    → process_signal reliable i m ≡ choose_handler reliable i (taken i v m)
unfolding process_signal wait_signal slave_request_has_errors
process-choose i v m a e = ground (arith, a, e)

-- A round of the processor thread for the answer.
abbrev pub Answered : ℕ → Master → Thread → Master → Type 0
Answered i m t m' =
    (t ≡ serving i)
    × ((l' : Link) × (m'.control ≡ l'.control)
        × (m'.sent ≡ l'.sent)
        × (segment i m' ≡ l'.seg)
        × Connects (must_change_name i m) (link_at i m) l')

pub process-Answered :
    (i v : ℕ) (m : Master)
    → i < length m.shm.slave_shmseg
    → Acknowledged (segment i m)
    → get_or m.sig_semaphore i 0 ≡ suc v
    → Returns (Answered i m) (process_signal reliable i m)
unfolding must_change_name
process-Answered i v m lt a e =
    let (ret, l', handled, h) =
      returned (λ ret l'. (ret ≡ rtc_success) × Connects (must_change_name i m) (link_at i m) l')
        (handle_slave_response reliable (must_change_name i m) (link_at i m))
        (response-Connects (must_change_name i m) (link_at i m) a) in
    rw
      (process-choose i v m a e
        ∙ choose-done i (taken i v m) l' a (handled ∙ ap (λ r. done r l') h.0))
      (refl, (l', refl, refl, get_or-set_self m.shm.slave_shmseg i l'.seg zeroed_shmseg lt, h.1))

-- The segment after the slave's answer.
abbrev pub acknowledged : Self → List ℕ → Shmseg → Shmseg
acknowledged self name g = record g {
  name = name;
  available_parameters = self.available_parameters;
  res_s_to_m = ack;
}

pub slave-answers :
    (n : Node) (name : List ℕ)
    → n.seg.sem_s_to_m_request ≡ 1
    → n.seg.sem_m_to_s_request ≡ 0
    → n.seg.req_m_to_s ≡ connect_slave
    → strcpy n.seg.name (c_string n.self.name) ≡ some name
    → Returns (λ _ n'. n'.seg ≡ acknowledged n.self name n.seg) (Signals.choose_handler reliable n)
unfolding Signals.choose_handler handle_master_request dispatch_master_request
    handle_connect_slave_request send_master_ack_response kill
slave-answers n name free out req copied = ground (arith, free, out, req, copied)

-- The slave's answer, on the memory that it shares with the master.
abbrev pub shared : ℕ → Master → Outcome Node (Unit {0}) → Outcome Master (Unit {0})
shared i m (done u n) = done tt (write_seg i m n.seg)
shared i m (blocked n) = blocked (write_seg i m n.seg)
shared i m fault = fault

abbrev pub answer : ℕ → Self → M Master (Unit {0})
answer i self m = shared i m (Signals.choose_handler reliable (node i m self))

-- The thread's request, the slave's answer to it, and the master's count of the answer's signal.
abbrev pub counted : ℕ → ℕ → Self → Thread → M Master (Unit {0})
counted p i self t = do answer i self; async_signal_handler reliable sigusr1 (pos p)

unfoldable pub handshake : ℕ → ℕ → Self → M Master (Unit {0})
handshake p i self = do t ← admit reliable (pos p); counted p i self t
