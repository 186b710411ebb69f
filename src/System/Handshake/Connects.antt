-- ===== src/System/Handshake/Connects.antt =====
-- A process without a segment goes through the whole handshake.
use real_time_cyclic.Prelude.{
  ℕ, ◌+◌, ◌<◌, ◌≡◌, refl, sym, ap, ◌∙◌, subst, arith, pos, false, List, length, length-set, get_or,
  set, get_or-set_self, some,
}
use real_time_cyclic.Common.{Shmseg, zeroed_shmseg, max_slaves, no_pid, connect_slave, sigusr1}
use real_time_cyclic.Common.Text.{c_string, strcpy}
use real_time_cyclic.Common.Text.Laws.{IsText, strcpy_fits}
use real_time_cyclic.Table.{at, no_idx}
use real_time_cyclic.Os.{reliable, Returns, returned, done, bind-done}
use real_time_cyclic.Master.State.{Master, segment, write_link}
use real_time_cyclic.Master.Processor.{serving, claim, admit, process_signal}
use real_time_cyclic.Master.Processor.Invariant.{IsSound, Serves}
use real_time_cyclic.Master.Processor.Admit.{
  lookup_pid, free_slot, requested, here, admit-requested, admit-lookup, Requested, claim-Serves,
}
use real_time_cyclic.Master.Init.{async_signal_handler, count_signal}
use real_time_cyclic.Table.Laws.{get_assigned_idx-set_same, assign_idx_hit}
use real_time_cyclic.Slave.Node.{Self}
use real_time_cyclic.Slave.Signals
use real_time_cyclic.System.Steps.{node, write_seg}
use real_time_cyclic.System.Handshake.{
  Acknowledged, Answered, acknowledged, slave-answers, process-Answered, shared, answer, counted,
  handshake,
}

module _ (p i : ℕ) (m : Master) (ok : IsSound m) (new : lookup_pid (pos p) m ≡ no_idx)
    (free : free_slot (pos p) m ≡ at i) (m_to_s : (segment i m).sem_m_to_s_request ≡ 1)
    (s_to_m : (segment i m).sem_s_to_m_request ≡ 1)
    (silent : (segment i m).shmseg_error_current_size ≡ 0) (self : Self)
    (text : IsText (c_string self.name))
    (fits : length (c_string self.name) < length (segment i m).name) where
  -- The segment with the request.
  abbrev asked_segment : Shmseg
  asked_segment = record (segment i m) {
    pid = pos p;
    sem_m_to_s_request = 0;
    req_m_to_s = connect_slave;
  }

  -- The master once the thread has sent the request.
  abbrev asks : Master
  asks = write_link i (claim i (pos p) m) (requested reliable p i 0 m ok new free m_to_s refl refl)

  claimed : Serves i (claim i (pos p) m)
  claimed = claim-Serves p i m ok new free

  asks-segment : segment i asks ≡ asked_segment
  asks-segment =
      get_or-set_self (claim i (pos p) m).shm.slave_shmseg i
        (requested reliable p i 0 m ok new free m_to_s refl refl).seg zeroed_shmseg
        (omega (arith, claimed.0.full, claimed.1))
      ∙ ap (λ (g : Shmseg). record g { sem_m_to_s_request = 0; req_m_to_s = connect_slave })
          (here reliable p i 0 m ok new free m_to_s refl refl)

  length-asks : length asks.shm.slave_shmseg ≡ max_slaves
  length-asks = length-set (claim i (pos p) m).shm.slave_shmseg i _ ∙ claimed.0.full

  lookup-asks : lookup_pid (pos p) asks ≡ at i
  lookup-asks =
      (subst (Returns (Requested p i 0 m))
        (admit-requested reliable p i 0 m ok new free m_to_s refl refl)
        (admit-lookup reliable p i 0 m ok new free m_to_s refl refl)).1

  -- The copy of the name.
  copied :
      (name : List ℕ) × (strcpy (segment i m).name (c_string self.name) ≡ some name)
      × (c_string name ≡ c_string self.name)
      × (length name ≡ length (segment i m).name)
  copied = strcpy_fits (segment i m).name (c_string self.name) text fits

  abbrev acked : Shmseg
  acked = acknowledged self copied.0 asked_segment

  answer-acked : answer i self asks ≡ done tt (write_seg i asks acked)
  answer-acked =
      let (u, n, e, h) =
        returned (λ _ n. n.seg ≡ acknowledged self copied.0 (segment i asks))
          (Signals.choose_handler reliable (node i asks self))
          (slave-answers (node i asks self) copied.0
            (ap (λ (g : Shmseg). g.sem_s_to_m_request) asks-segment ∙ s_to_m)
            (ap (λ (g : Shmseg). g.sem_m_to_s_request) asks-segment)
            (ap (λ (g : Shmseg). g.req_m_to_s) asks-segment)
            (ap (λ (g : Shmseg). strcpy g.name (c_string self.name)) asks-segment ∙ copied.1)) in
      ap (shared i asks) e
      ∙ ap (λ g. done tt (write_seg i asks g)) (h ∙ ap (acknowledged self copied.0) asks-segment)

  lookup-acked : lookup_pid (pos p) (write_seg i asks acked) ≡ at i
  lookup-acked =
      get_assigned_idx-set_same (λ g. g.pid) zeroed_shmseg (pos p) asks.shm.slave_shmseg i acked
        length-asks claimed.1 (sym (ap (λ (g : Shmseg). g.pid) asks-segment))
      ∙ lookup-asks

  -- The master once the signal of the answer was counted.
  abbrev notified : Master
  notified = record (write_seg i asks acked) {
    sig_semaphore = set m.sig_semaphore i (get_or m.sig_semaphore i 0 + 1);
  }

  async-notified :
      async_signal_handler reliable sigusr1 (pos p) (write_seg i asks acked) ≡ done tt notified
  unfolding async_signal_handler count_signal claim
  async-notified = rw lookup-acked refl

  handshake-notified : handshake p i self m ≡ done tt notified
  unfolding handshake
  handshake-notified =
      bind-done (admit reliable (pos p)) (counted p i self) m asks (serving i)
        (admit-requested reliable p i 0 m ok new free m_to_s refl refl)
      ∙ bind-done (answer i self) (λ _. async_signal_handler reliable sigusr1 (pos p)) asks
          (write_seg i asks acked) tt answer-acked
      ∙ async-notified

  there : segment i notified ≡ acked
  there =
      get_or-set_self asks.shm.slave_shmseg i acked zeroed_shmseg
        (omega (arith, length-asks, claimed.1))

  unconnected : (segment i m).is_connected ≡ false
  unconnected =
      let found : (i < max_slaves) × ((segment i m).pid ≡ no_pid) =
        assign_idx_hit (λ g. g.pid) zeroed_shmseg p m.shm.slave_shmseg free in
      ground (arith, ok.owned i found.0, found.1)

  acked-Acknowledged : Acknowledged acked
  acked-Acknowledged = record {
    unconnected = unconnected;
    asked = refl;
    answered = refl;
    outstanding = refl;
    idle = s_to_m;
    silent = silent;
  }

  -- A process that has no segment yet is connected, if no call fails and its search finds the free
  -- segment `i` with both semaphores at 1, no errors and room for its name: the thread's request, the
  -- slave's answer and the count of its signal leave the segment with the process's pid, its name and
  -- its parameters; and the next round of the thread serves the segment further, in which either no
  -- other slave has the name, the slave is connected, its request over, and the configurator is sent
  -- ACK, or another slave has it and the slave is asked for another name.
  pub handshake-Connects :
      i < length m.sig_semaphore
      → Returns
          (λ _ m'.
            ((segment i m').pid ≡ pos p)
            × (c_string (segment i m').name ≡ c_string self.name)
            × ((segment i m').available_parameters ≡ self.available_parameters)
            × Returns (Answered i m') (process_signal reliable i m'))
          (handshake p i self m)
  handshake-Connects counts = rw handshake-notified (
    ap (λ (g : Shmseg). g.pid) there,
    ap (λ (g : Shmseg). c_string g.name) there ∙ copied.2,
    ap (λ (g : Shmseg). g.available_parameters) there,
    process-Answered i (get_or m.sig_semaphore i 0) notified
        (omega (arith, length-set asks.shm.slave_shmseg i acked, length-asks, claimed.1))
        (subst Acknowledged (sym there) acked-Acknowledged)
        (get_or-set_self m.sig_semaphore i (get_or m.sig_semaphore i 0 + 1) 0 counts ∙ omega arith),
  )
