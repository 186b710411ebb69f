-- ===== src/Configurator/Cycle/Requests.antt =====
-- What START_SLAVE_CYCLE of src/configurator.c writes to the segment of the slave.
use real_time_cyclic.Prelude.{
  ℕ, zero, suc, ◌*◌, ◌/◌, ◌<◌, ◌≤◌, ◌≡◌, refl, sym, ap, ◌∙◌, arith, ℤ, pos, true, false, ◌&&◌, ◌||◌,
  ◌==◌, ◌≢◌, Bool, List, [], ◌∷◌, Option, none, some, get_or, set, length, get_or-set_self,
  if◌then◌else◌,
}
use real_time_cyclic.Common.{Response, Shm, Shmseg, zeroed_shmseg, sigusr2}
use real_time_cyclic.Common.Text.{c_string}
use real_time_cyclic.Common.Params.{
  has_bit, add_bit, string_parameter_bit, int_parameter_bit, bool_parameter_bit,
}
use real_time_cyclic.Table.{at}
use real_time_cyclic.Os.{Os, M, done, bind-done}
use real_time_cyclic.Configurator.Input.{
  Line, read_characters, buffer_of, scan_char, scan_long, long_max, read_pid,
}
use real_time_cyclic.Configurator.{
  Config, send_start_cycle_slave_request, wait_start_slave_cycle_response, receive,
}
use real_time_cyclic.Configurator.Menu.{is_valid_pid, idle_pids}
use real_time_cyclic.Configurator.Cycle.{
  start_slave_cycle_case, Answers, get_assigned_shmseg_idx, read_segment, write_segment, says_yes,
  ask_parameter, positive, set_interval, ask_interval, ask_string, ask_int, ask_bool, after_bool,
  after_int, after_string, ask_all, start_valid, start_asked,
}

set_get : {A : Type 0} (xs : List A) (i : ℕ) (d : A) → set xs i (get_or xs i d) ≡ xs
set_get [] i d = refl
set_get (x ∷ xs) zero d = refl
set_get (x ∷ xs) (suc i) d = ap (◌∷◌ x) (set_get xs i d)

set-set : {A : Type 0} (xs : List A) (i : ℕ) (a b : A) → set (set xs i a) i b ≡ set xs i b
set-set [] i a b = refl
set-set (x ∷ xs) zero a b = refl
set-set (x ∷ xs) (suc i) a b = ap (◌∷◌ x) (set-set xs i a b)

-- A line that was typed: it has a first byte, which is not NUL.
abbrev pub IsTyped : Line → Type 0
IsTyped none = ⊥
IsTyped (some []) = ⊥
IsTyped (some (c ∷ cs)) = c ≢ 0

-- A line that starts with 'y' or 'Y'.
unfoldable pub wants : Line → Bool
wants none = false
wants (some []) = false
wants (some (c ∷ cs)) = c == b'y' || c == b'Y'

-- What an answer means for the parameters that are requested.
unfoldable pub answered : Line → ℕ → Shmseg → Shmseg
answered line bit g =
    if has_bit g.available_parameters bit && wants line
    then record g { requested_parameters = add_bit g.requested_parameters bit }
    else g

unfoldable pub answered_all : Answers → Shmseg → Shmseg
answered_all a g =
    answered a.bool_line bool_parameter_bit
      (answered a.int_line int_parameter_bit (answered a.string_line string_parameter_bit g))

abbrev pub AllTyped : Answers → Type 0
AllTyped a = IsTyped a.string_line × IsTyped a.int_line × IsTyped a.bool_line

-- What was in the variable before does not matter.
typed-yes :
    (line : Line) (stale : ℕ)
    → IsTyped line
    → (says_yes line stale ≡ wants line) × (0 < read_characters line)
unfolding says_yes wants scan_char buffer_of c_string read_characters
typed-yes none stale h = absurd h
typed-yes (some []) stale h = absurd h
typed-yes (some (c ∷ cs)) stale h = ground (arith, h)

-- The state with a segment in place of the one at `i`.
abbrev pub with_segment : Config → Shm → ℕ → Shmseg → Config
with_segment c shm i g = record c {
  shmp = some (record shm { slave_shmseg = set shm.slave_shmseg i g });
}

module _ (c : Config) (shm : Shm) (i : ℕ) (lt : i < length shm.slave_shmseg) where
  write-with_segment :
      (f : Shmseg → Shmseg) (g : Shmseg)
      → write_segment (at i) f (with_segment c shm i g) ≡ done tt (with_segment c shm i (f g))
  unfolding write_segment
  write-with_segment f g =
      ap (λ s. done tt (record c { shmp = some (record shm { slave_shmseg = s }) }))
        (ap (λ h. set (set shm.slave_shmseg i g) i (f h))
            (get_or-set_self shm.slave_shmseg i g zeroed_shmseg lt)
          ∙ set-set shm.slave_shmseg i g (f g))

  read-with_segment :
      {A : Type 0} (k : Shmseg → M Config A) (g : Shmseg)
      → read_segment (at i) k (with_segment c shm i g) ≡ k g (with_segment c shm i g)
  unfolding read_segment
  read-with_segment k g =
      ap (λ h. k h (with_segment c shm i g)) (get_or-set_self shm.slave_shmseg i g zeroed_shmseg lt)

  ask_parameter-answered :
      (line : Line) (stale bit : ℕ) (g : Shmseg)
      → IsTyped line
      → ask_parameter line stale bit (at i) (with_segment c shm i g)
        ≡ done true (with_segment c shm i (answered line bit g))
  unfolding ask_parameter answered
  ask_parameter-answered line stale bit g h =
      read-with_segment _ g
      ∙ ground (
        arith,
        typed-yes line stale h,
        write-with_segment
            (λ x. record x { requested_parameters = add_bit x.requested_parameters bit }) g,
      )

  set_interval-none :
      (g : Shmseg)
      → set_interval none (at i) (with_segment c shm i g) ≡ done false (with_segment c shm i g)
  unfolding set_interval
  set_interval-none g = refl

  set_interval-some :
      (ms : ℕ) (g : Shmseg)
      → ms ≤ long_max / 1000
      → set_interval (some ms) (at i) (with_segment c shm i g)
        ≡ done true (with_segment c shm i (record g { communication_cycle_us = pos (ms * 1000) }))
  unfolding set_interval
  set_interval-some ms g h =
      ground (
        arith,
        h,
        write-with_segment (λ x. record x { communication_cycle_us = pos (ms * 1000) }) g,
      )

  -- The three questions, one after the other.
  pub ask_all-answered :
      (a : Answers) (g : Shmseg)
      → AllTyped a
      → ask_all a (at i) (with_segment c shm i g)
        ≡ ask_interval a.interval_line (at i) (with_segment c shm i (answered_all a g))
  unfolding ask_all answered_all
  ask_all-answered a g h =
      bind-done (ask_string a (at i)) (after_string a (at i)) (with_segment c shm i g)
        (with_segment c shm i (of_string g)) true
        (ask_parameter-answered a.string_line a.string_stale string_parameter_bit g h.0)
      ∙ (bind-done (ask_int a (at i)) (after_int a (at i)) (with_segment c shm i (of_string g))
            (with_segment c shm i (of_int g)) true
            (ask_parameter-answered a.int_line a.int_stale int_parameter_bit (of_string g) h.1)
          ∙ bind-done (ask_bool a (at i)) (after_bool a (at i)) (with_segment c shm i (of_int g))
              (with_segment c shm i (answered_all a g)) true
              (ask_parameter-answered a.bool_line a.bool_stale bool_parameter_bit (of_int g) h.2))
    where
      of_string : Shmseg → Shmseg
      of_string = answered a.string_line string_parameter_bit

      of_int : Shmseg → Shmseg
      of_int k = answered a.int_line int_parameter_bit (of_string k)

start_asked-sends :
    (os : Os) (pid : ℤ) (answer : Response) (d : Config)
    → os.kill_fails d.master_pid sigusr2 ≡ false
    → start_asked os pid (some answer) true d
      ≡ done tt (record d {
        control = record (d.control) { affected_slave_pid = pid; response = answer };
        sent = (d.master_pid, sigusr2) ∷ d.sent;
      })
unfolding send_start_cycle_slave_request wait_start_slave_cycle_response receive
start_asked-sends os pid answer d h = ground (arith, h)

module _ (os : Os) (line : Line) (a : Answers) (r : Option Response) (c : Config) (shm : Shm)
    (i : ℕ) (pid : ℤ) (lt : i < length shm.slave_shmseg) (read : AllTyped a)
    (typed : read_pid line ≡ some pid) (idle : is_valid_pid pid (idle_pids shm.slave_shmseg) ≡ true)
    (found : get_assigned_shmseg_idx pid shm.slave_shmseg ≡ at i) where
  abbrev pub asked_segment : Shmseg
  asked_segment = answered_all a (get_or shm.slave_shmseg i zeroed_shmseg)

  abbrev old : Config
  old = with_segment c shm i (get_or shm.slave_shmseg i zeroed_shmseg)

  at_start :
      record c { shmp = some shm } ≡ with_segment c shm i (get_or shm.slave_shmseg i zeroed_shmseg)
  at_start =
      ap (λ s. record c { shmp = some (record shm { slave_shmseg = s }) })
        (sym (set_get shm.slave_shmseg i zeroed_shmseg))

  start_case :
      start_slave_cycle_case os line a r (record c { shmp = some shm })
      ≡ start_valid os a r shm.slave_shmseg pid (record c { shmp = some shm })
  unfolding start_slave_cycle_case
  start_case = rw typed (rw idle refl)

  asks :
      (ms : ℕ)
      → positive (scan_long (buffer_of a.interval_line)) ≡ some ms
      → ms ≤ long_max / 1000
      → start_slave_cycle_case os line a r (record c { shmp = some shm })
        ≡ start_asked os pid r true (
            with_segment c shm i
              (record asked_segment { communication_cycle_us = pos (ms * 1000) }))
  unfolding ask_interval
  asks ms interval small =
      start_case
      ∙ (rw (found, at_start) refl
          ∙ bind-done (ask_all a (at i)) (start_asked os pid r) old
              (with_segment c shm i
                (record asked_segment { communication_cycle_us = pos (ms * 1000) }))
              true
              (ask_all-answered c shm i lt a (get_or shm.slave_shmseg i zeroed_shmseg) read
                ∙ rw interval (set_interval-some c shm i lt ms asked_segment small)))

  -- A pid of an idle slave, an answer that is typed for each parameter, a time above 0 that fits in
  -- microseconds, a signal that does not fail and a master that answers: to the parameters that were
  -- requested in the slave's segment those are added that it has and whose answer starts with 'y' or
  -- 'Y', its cycle is set to the time in microseconds, the other segments are as they were, the control
  -- segment names the slave, SIGUSR2 is sent to the master, and the master's answer is in the control
  -- segment at the end.
  pub start_slave_cycle_case-requests :
      (ms : ℕ) (answer : Response)
      → positive (scan_long (buffer_of a.interval_line)) ≡ some ms
      → ms ≤ long_max / 1000
      → os.kill_fails c.master_pid sigusr2 ≡ false
      → r ≡ some answer
      → start_slave_cycle_case os line a r (record c { shmp = some shm })
        ≡ done tt
            (record (with_segment c shm i
              (record asked_segment { communication_cycle_us = pos (ms * 1000) })) {
                control = record (c.control) { affected_slave_pid = pid; response = answer };
                sent = (c.master_pid, sigusr2) ∷ c.sent;
              })
  start_slave_cycle_case-requests ms answer interval small kills received =
      asks ms interval small
      ∙ rw received (
          start_asked-sends os pid answer
            (with_segment c shm i
              (record asked_segment { communication_cycle_us = pos (ms * 1000) }))
            kills)

  -- A time that is no number above 0 is refused: nothing is sent and the control segment is as it was,
  -- but the parameters that the slave has and whose typed answer starts with 'y' or 'Y' stay requested
  -- in its segment.
  pub start_slave_cycle_case-refused :
      positive (scan_long (buffer_of a.interval_line)) ≡ none
      → start_slave_cycle_case os line a r (record c { shmp = some shm })
        ≡ done tt (with_segment c shm i asked_segment)
  unfolding ask_interval
  start_slave_cycle_case-refused interval =
      start_case
      ∙ (rw (found, at_start) refl
          ∙ bind-done (ask_all a (at i)) (start_asked os pid r) old
              (with_segment c shm i asked_segment) false
              (ask_all-answered c shm i lt a (get_or shm.slave_shmseg i zeroed_shmseg) read
                ∙ rw interval (set_interval-none c shm i lt asked_segment)))
