-- ===== src/Configurator/Registry/Questions.antt =====
-- The case of the menu of src/configurator.c that starts a cycle leaves the table of created slaves,
-- and finds the segment that it asks about.
use real_time_cyclic.Prelude.{
  ℕ, ◌/◌, ◌≤◌, ◌≡◌, ◌≢◌, refl, inl, inr, arith, ℤ, Bool, true, false, Bool-cases, List, Option,
  none, some, get_or,
}
use real_time_cyclic.Common.{
  Shm, Shmseg, zeroed_shmseg, Ret, rtc_success, rtc_error, Response, sigusr2,
}
use real_time_cyclic.Common.Params.{string_parameter_bit, int_parameter_bit, bool_parameter_bit}
use real_time_cyclic.Table.{at}
use real_time_cyclic.Os.{Os, M, Survives, Survives-bind, ◌>>=◌, ◌>>◌, pure}
use real_time_cyclic.Configurator.Input.{Line, buffer_of, scan_long, long_max}
use real_time_cyclic.Configurator.{
  Config, send_start_cycle_slave_request, wait_start_slave_cycle_response,
}
use real_time_cyclic.Configurator.Cycle.{
  Answers, get_assigned_shmseg_idx, read_at, read_segment, write_at, write_segment,
  request_parameter, ask_parameter, positive, set_interval, ask_interval, take_answer, write_cycle,
  ask_string, ask_int, ask_bool, after_bool, after_int, after_string, ask_all, after_start,
  start_asked, start_valid,
}
use real_time_cyclic.Configurator.Registry.{IsSound}

-- The time in milliseconds, if one is typed, fits when it is in microseconds.
abbrev pub Fits : Answers → Type 0
Fits a =
    (ms : ℕ) → positive (scan_long (buffer_of a.interval_line)) ≡ some ms → ms ≤ long_max / 1000

-- A sound table, and memory that is attached.
abbrev pub Attached : Config → Type 0
Attached c = IsSound c × (c.shmp ≢ none)

-- Soundness is about the table and the number only.
pub IsSound-same :
    (c d : Config)
    → d.created_slave ≡ c.created_slave
    → d.created_slaves_number ≡ c.created_slaves_number
    → IsSound c
    → IsSound d
IsSound-same c d e n ok = record {
  full = rw e ok.full;
  unique = rw e ok.unique;
  pids = rw e ok.pids;
  counted = rw (e, n) ok.counted;
}

both-Survives :
    {A B : Type 0} (m : M Config A) (f : A → M Config B) (c : Config)
    → Survives Attached (m c)
    → ((a : A) (t : Config) → Attached t → Survives Attached (f a t))
    → Survives Attached ((m >>= f) c)
both-Survives m f c h rest = Survives-bind Attached Attached m f c (λ t j. j) rest h

module _ (i : ℕ) where
  read-Survives :
      {A : Type 0} (f : Shmseg → M Config A) (c : Config)
      → Attached c
      → ((g : Shmseg) → Survives Attached (f g c))
      → Survives Attached (read_segment (at i) f c)
  unfolding read_segment
  read-Survives {A} f c h step = by_shm c.shmp h.1
    where
      by_shm : (o : Option Shm) → o ≢ none → Survives Attached (read_at (at i) o f c)
      by_shm none k = absurd (k refl)
      by_shm (some shm) k = step (get_or shm.slave_shmseg i zeroed_shmseg)

  write-Survives :
      (f : Shmseg → Shmseg) (c : Config) → Attached c → Survives Attached (write_segment (at i) f c)
  unfolding write_segment
  write-Survives f c h = by_shm c.shmp h.1
    where
      by_shm : (o : Option Shm) → o ≢ none → Survives Attached (write_at (at i) o f c)
      by_shm none k = absurd (k refl)
      by_shm (some shm) k = (IsSound-same c _ refl refl h.0, λ e. absurd (ground (arith, e)))

  ask_parameter-Survives :
      (line : Line) (stale bit : ℕ) (c : Config)
      → Attached c
      → Survives Attached (ask_parameter line stale bit (at i) c)
  unfolding ask_parameter
  ask_parameter-Survives line stale bit c h = read-Survives _ c h λ g.
      let answered : Survives Attached ((take_answer line stale bit (at i) >> pure true) c) =
        both-Survives (take_answer line stale bit (at i)) (λ _. pure true) c
          (ground (arith, h, request)) (λ _ t j. j) in
      ground (arith, h, answered)
    where
      request : Survives Attached (request_parameter bit (at i) c)
      request = write-Survives _ c h

  set_interval-Survives :
      (ms : Option ℕ) (c : Config)
      → ((k : ℕ) → ms ≡ some k → k ≤ long_max / 1000)
      → Attached c
      → Survives Attached (set_interval ms (at i) c)
  unfolding set_interval
  set_interval-Survives none c fits h = h
  set_interval-Survives (some ms) c fits h =
      let written : Survives Attached ((write_cycle ms (at i) >> pure true) c) =
        both-Survives (write_cycle ms (at i)) (λ _. pure true) c (write-Survives _ c h)
          (λ _ t j. j) in
      ground (arith, written, fits ms refl)

  ask_all-Survives :
      (a : Answers) (c : Config) → Fits a → Attached c → Survives Attached (ask_all a (at i) c)
  unfolding ask_all ask_interval
  ask_all-Survives a c fits h =
      both-Survives (ask_string a (at i)) (after_string a (at i)) c
        (ask_parameter-Survives a.string_line a.string_stale string_parameter_bit c h) of_string
    where
      of_bool : (b : Bool) (t : Config) → Attached t → Survives Attached (after_bool a (at i) b t)
      of_bool true t j =
          set_interval-Survives (positive (scan_long (buffer_of a.interval_line))) t fits j
      of_bool false t j = j

      of_int : (b : Bool) (t : Config) → Attached t → Survives Attached (after_int a (at i) b t)
      of_int true t j =
          both-Survives (ask_bool a (at i)) (after_bool a (at i)) t
            (ask_parameter-Survives a.bool_line a.bool_stale bool_parameter_bit t j) of_bool
      of_int false t j = j

      of_string :
          (b : Bool) (t : Config) → Attached t → Survives Attached (after_string a (at i) b t)
      of_string true t j =
          both-Survives (ask_int a (at i)) (after_int a (at i)) t
            (ask_parameter-Survives a.int_line a.int_stale int_parameter_bit t j) of_int
      of_string false t j = j

module _ (os : Os) where
  send_start-Survives :
      (pid : ℤ) (c : Config)
      → Attached c
      → Survives Attached (send_start_cycle_slave_request os pid c)
  unfolding send_start_cycle_slave_request
  send_start-Survives pid c h = elim (Bool-cases (os.kill_fails c.master_pid sigusr2)) [
    | inl e ↦ rw e (IsSound-same c _ refl refl h.0, h.1)
    | inr e ↦ rw e (IsSound-same c _ refl refl h.0, h.1)
  ]

  wait_start-Survives :
      (r : Option Response) (c : Config)
      → Attached c
      → Survives Attached (wait_start_slave_cycle_response r c)
  unfolding wait_start_slave_cycle_response
  wait_start-Survives none c h = h
  wait_start-Survives (some r) c h = (IsSound-same c _ refl refl h.0, h.1)

  after_start-Survives :
      (r : Option Response) (ret : Ret) (c : Config)
      → Attached c
      → Survives Attached (after_start os r ret c)
  after_start-Survives r rtc_success c h = wait_start-Survives r c h
  after_start-Survives r rtc_error c h = h

  asked-Survives :
      (pid : ℤ) (r : Option Response) (b : Bool) (c : Config)
      → Attached c
      → Survives Attached (start_asked os pid r b c)
  asked-Survives pid r true c h =
      both-Survives (send_start_cycle_slave_request os pid) (after_start os r) c
        (send_start-Survives pid c h) (after_start-Survives r)
  asked-Survives pid r false c h = h

  -- The pid of a slave whose index is found.
  pub start_valid-Survives :
      (a : Answers) (r : Option Response) (segments : List Shmseg) (pid : ℤ) (i : ℕ) (c : Config)
      → Fits a
      → Attached c
      → get_assigned_shmseg_idx pid segments ≡ at i
      → Survives Attached (start_valid os a r segments pid c)
  start_valid-Survives a r segments pid i c fits h found = rw found (
      both-Survives (ask_all a (at i)) (start_asked os pid r) c (ask_all-Survives i a c fits h)
        (asked-Survives pid r))
