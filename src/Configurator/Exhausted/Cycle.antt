-- ===== src/Configurator/Exhausted/Cycle.antt =====
-- The number of created slaves never falls in START_SLAVE_CYCLE.
use real_time_cyclic.Prelude.{ℕ, arith, ℤ, Bool, true, false, Option, none, some, get_or}
use real_time_cyclic.Common.{Shm, Shmseg, Response, zeroed_shmseg}
use real_time_cyclic.Common.Params.{string_parameter_bit, int_parameter_bit, bool_parameter_bit}
use real_time_cyclic.Table.{Slot, at, no_idx, out_of_bounds}
use real_time_cyclic.Os.{Os, M, Ensures, Ensures-bind, ◌>>=◌, ◌>>◌, pure}
use real_time_cyclic.Configurator.Input.{Line, buffer_of, scan_long, read_pid}
use real_time_cyclic.Configurator.{
  Config, send_start_cycle_slave_request, wait_start_slave_cycle_response,
}
use real_time_cyclic.Configurator.Menu.{idle_pids}
use real_time_cyclic.Configurator.Cycle.{
  Answers, get_assigned_shmseg_idx, read_at, read_segment, write_at, write_segment,
  request_parameter, ask_parameter, positive, set_interval, ask_interval, take_answer, write_cycle,
  ask_string, ask_int, ask_bool, after_bool, after_int, after_string, ask_all, after_start,
  start_asked, start_valid, start_idle, start_slave_cycle_case,
}
use real_time_cyclic.Configurator.Exhausted.Cases.{AtLeast, valid-AtLeast, by_ret, segments-AtLeast}

module _ (k : ℕ) where
  -- Two parts that both keep the number.
  pub both-AtLeast :
      {A B : Type 0} (m : M Config A) (f : A → M Config B) (c : Config)
      → Ensures (AtLeast k) (m c)
      → ((a : A) (t : Config) → AtLeast k t → Ensures (AtLeast k) (f a t))
      → Ensures (AtLeast k) ((m >>= f) c)
  both-AtLeast m f c h rest = Ensures-bind (AtLeast k) (AtLeast k) m f c (λ t j. j) rest h

  pub read-AtLeast :
      {A : Type 0} (idx : Slot) (f : Shmseg → M Config A) (c : Config)
      → ((g : Shmseg) → Ensures (AtLeast k) (f g c))
      → Ensures (AtLeast k) (read_segment idx f c)
  unfolding read_segment
  read-AtLeast {A} idx f c step = by_shm idx c.shmp
    where
      by_shm : (s : Slot) (o : Option Shm) → Ensures (AtLeast k) (read_at s o f c)
      by_shm s none = tt
      by_shm (at i) (some shm) = step (get_or shm.slave_shmseg i zeroed_shmseg)
      by_shm no_idx (some shm) = tt
      by_shm out_of_bounds (some shm) = tt

  pub write-AtLeast :
      (idx : Slot) (f : Shmseg → Shmseg) (c : Config)
      → AtLeast k c
      → Ensures (AtLeast k) (write_segment idx f c)
  unfolding write_segment
  write-AtLeast idx f c h = by_shm idx c.shmp
    where
      by_shm : (s : Slot) (o : Option Shm) → Ensures (AtLeast k) (write_at s o f c)
      by_shm s none = tt
      by_shm (at i) (some shm) = h
      by_shm no_idx (some shm) = tt
      by_shm out_of_bounds (some shm) = tt

  ask_parameter-AtLeast :
      (line : Line) (stale bit : ℕ) (idx : Slot) (c : Config)
      → AtLeast k c
      → Ensures (AtLeast k) (ask_parameter line stale bit idx c)
  unfolding ask_parameter
  ask_parameter-AtLeast line stale bit idx c h = read-AtLeast idx _ c λ g.
      let answered : Ensures (AtLeast k) ((take_answer line stale bit idx >> pure true) c) =
        both-AtLeast (take_answer line stale bit idx) (λ _. pure true) c
          (ground (arith, h, request)) (λ _ t j. j) in
      ground (arith, h, answered)
    where
      request : Ensures (AtLeast k) (request_parameter bit idx c)
      request = write-AtLeast idx _ c h

  set_interval-AtLeast :
      (ms : Option ℕ) (idx : Slot) (c : Config)
      → AtLeast k c
      → Ensures (AtLeast k) (set_interval ms idx c)
  unfolding set_interval
  set_interval-AtLeast none idx c h = h
  set_interval-AtLeast (some ms) idx c h =
      let written : Ensures (AtLeast k) ((write_cycle ms idx >> pure true) c) =
        both-AtLeast (write_cycle ms idx) (λ _. pure true) c (write-AtLeast idx _ c h)
          (λ _ t j. j) in
      ground (arith, written)

  ask_all-AtLeast :
      (a : Answers) (idx : Slot) (c : Config) → AtLeast k c → Ensures (AtLeast k) (ask_all a idx c)
  unfolding ask_all ask_interval
  ask_all-AtLeast a idx c h =
      both-AtLeast (ask_string a idx) (after_string a idx) c
        (ask_parameter-AtLeast a.string_line a.string_stale string_parameter_bit idx c h) of_string
    where
      of_bool : (b : Bool) (t : Config) → AtLeast k t → Ensures (AtLeast k) (after_bool a idx b t)
      of_bool true t j =
          set_interval-AtLeast (positive (scan_long (buffer_of a.interval_line))) idx t j
      of_bool false t j = j

      of_int : (b : Bool) (t : Config) → AtLeast k t → Ensures (AtLeast k) (after_int a idx b t)
      of_int true t j =
          both-AtLeast (ask_bool a idx) (after_bool a idx) t
            (ask_parameter-AtLeast a.bool_line a.bool_stale bool_parameter_bit idx t j) of_bool
      of_int false t j = j

      of_string :
          (b : Bool) (t : Config) → AtLeast k t → Ensures (AtLeast k) (after_string a idx b t)
      of_string true t j =
          both-AtLeast (ask_int a idx) (after_int a idx) t
            (ask_parameter-AtLeast a.int_line a.int_stale int_parameter_bit idx t j) of_int
      of_string false t j = j

  module _ (os : Os) where
    pub send_start-AtLeast :
        (p : ℤ) (c : Config)
        → AtLeast k c
        → Ensures (AtLeast k) (send_start_cycle_slave_request os p c)
    unfolding send_start_cycle_slave_request
    send_start-AtLeast p c h = ground (arith, h)

    pub wait_start-AtLeast :
        (r : Option Response) (c : Config)
        → AtLeast k c
        → Ensures (AtLeast k) (wait_start_slave_cycle_response r c)
    unfolding wait_start_slave_cycle_response
    wait_start-AtLeast none c h = h
    wait_start-AtLeast (some r) c h = h

    asked-AtLeast :
        (p : ℤ) (r : Option Response) (b : Bool) (c : Config)
        → AtLeast k c
        → Ensures (AtLeast k) (start_asked os p r b c)
    asked-AtLeast p r true c h =
        both-AtLeast (send_start_cycle_slave_request os p) (after_start os r) c
          (send_start-AtLeast p c h)
          λ ret t j. by_ret k os (after_start os r) t (wait_start-AtLeast r t j) j ret
    asked-AtLeast p r false c h = h

    pub start-AtLeast :
        (line : Line) (a : Answers) (r : Option Response) (c : Config)
        → AtLeast k c
        → Ensures (AtLeast k) (start_slave_cycle_case os line a r c)
    unfolding start_slave_cycle_case
    start-AtLeast line a r c h = segments-AtLeast k os (start_idle os line a r) c λ gs.
        valid-AtLeast k (read_pid line) (idle_pids gs) (start_valid os a r gs) c h λ p.
          both-AtLeast (ask_all a (get_assigned_shmseg_idx p gs)) (start_asked os p r) c
            (ask_all-AtLeast a (get_assigned_shmseg_idx p gs) c h) (asked-AtLeast p r)
