-- ===== src/Configurator/Start.antt =====
-- src/configurator.c: the calls before and after the loop of `main`, the shared memory, and the menu
-- that is printed.
use real_time_cyclic.Prelude.{
  ℕ, zero, suc, ◌+◌, ◌≡◌, ◌⊎◌, refl, arith, ℤ, pos, Bool, true, false, ◌||◌, List, [], ◌∷◌, ◌++◌,
  length, none, some,
}
use real_time_cyclic.Common.{Shm, ControlShm, Ret, rtc_success, rtc_error, Request}
use real_time_cyclic.Os.{
  Pointer, null, invalid, attached, M, Returns, ◌>>=◌, ◌>>◌, pure, modify, given◌run◌otherwise◌,
}
use real_time_cyclic.Configurator.Main.{
  fresh, request_of, init_configurator, init_control_shared_memory,
}

-- Which calls report an error.
pub record StartCalls : Type 0 where
  pub sigprocmask_fails : Bool
  pub control_shmget_fails : Bool
  pub control_shmat_fails : Bool
  pub sigtimedwait_fails : Bool
  pub shmget_fails : Bool
  pub shmat_fails : Bool
  pub control_shmdt_fails : Bool
  pub shmdt_fails : Bool

-- The two pointers of `configurator_context_t`.
pub record Memory : Type 0 where
  pub control_shmp : Pointer ControlShm
  pub shmp : Pointer Shm

-- After `memset(&self, 0, sizeof(configurator_context_t))`.
abbrev pub no_memory : Memory
no_memory = record { control_shmp = null; shmp = null }

module _ (calls : StartCalls) where
  abbrev fail_if : Bool → M Memory Ret → M Memory Ret
  fail_if failed k = given failed run pure rtc_error otherwise k

  abbrev and_then : M Memory Ret → Ret → M Memory Ret
  and_then k rtc_success = k
  and_then k rtc_error = pure rtc_error

  unfoldable pub block_signals : M Memory Ret
  block_signals = fail_if calls.sigprocmask_fails (pure rtc_success)

  -- A failed `shmat` leaves the pointer at -1.
  unfoldable pub attach_control : ℤ → M Memory Ret
  attach_control own_pid = fail_if calls.control_shmget_fails (
      given calls.control_shmat_fails
      run (do modify (λ m. record m { control_shmp = invalid }); pure rtc_error)
      otherwise (do
        modify (λ m. record m { control_shmp = attached (init_control_shared_memory own_pid) })
        pure rtc_success))

  unfoldable pub attach_memory : Shm → M Memory Ret
  attach_memory shm = fail_if calls.shmget_fails (
      given calls.shmat_fails
      run (do modify (λ m. record m { shmp = invalid }); pure rtc_error)
      otherwise (do modify (λ m. record m { shmp = attached shm }); pure rtc_success))

  -- `main` up to the loop.
  unfoldable pub start_configurator : ℤ → M Memory Ret
  start_configurator own_pid = do ret ← block_signals; and_then (attach_control own_pid) ret

  -- After `fork` of the master, whose memory is `shm`.
  unfoldable pub attach_master : Shm → M Memory Ret
  unfolding attach_memory
  attach_master shm = fail_if calls.sigtimedwait_fails (attach_memory shm)

  abbrev either_error : Bool → Bool → Ret
  either_error false false = rtc_success
  either_error true b = rtc_error
  either_error false true = rtc_error

  unfoldable pub final : M Memory Ret
  final = do
    modify (λ m. record m { control_shmp = null })
    modify (λ m. record m { shmp = null })
    pure (either_error calls.control_shmdt_fails calls.shmdt_fails)

  -- The loop of `main` is entered, with the control segment attached, exactly when none of the calls
  -- before it fails; then its state is that of `init_configurator`, and otherwise `main` returns an
  -- error.
  pub start_configurator-Outcomes :
      (own_pid : ℤ)
      → Returns
          (λ ret m.
            ((ret ≡ rtc_success)
              × (m.control_shmp ≡ attached (fresh own_pid).control)
              × (init_configurator calls.sigprocmask_fails
                    (calls.control_shmget_fails || calls.control_shmat_fails)
                    own_pid
                  ≡ some (fresh own_pid)))
            ⊎ ((ret ≡ rtc_error)
                × (init_configurator calls.sigprocmask_fails
                      (calls.control_shmget_fails || calls.control_shmat_fails)
                      own_pid
                    ≡ none)))
          (start_configurator own_pid no_memory)
  unfolding start_configurator block_signals attach_control init_configurator
  start_configurator-Outcomes own_pid = ground arith

-- What the loop over the menu prints: the number of a command, and which command its text names.
-- `rounds` are left, the next at `i`.
abbrev pub menu_line : ℕ → Request → List (ℕ × Request)
menu_line i Request.start_master = (i, Request.start_master) ∷ []
menu_line i Request.stop_master = (i, Request.stop_master) ∷ []
menu_line i Request.create_slave = (i, Request.create_slave) ∷ []
menu_line i Request.delete_slave = (i, Request.delete_slave) ∷ []
menu_line i Request.connect_slave = (i, Request.connect_slave) ∷ []
menu_line i Request.disconnect_slave = (i, Request.disconnect_slave) ∷ []
menu_line i Request.start_slave_cycle = (i, Request.start_slave_cycle) ∷ []
menu_line i Request.stop_slave_cycle = (i, Request.stop_slave_cycle) ∷ []
menu_line i Request.print_slave_data = (i, Request.print_slave_data) ∷ []
menu_line i Request.print_log_data = (i, Request.print_log_data) ∷ []
menu_line i Request.automatic_test = (i, Request.automatic_test) ∷ []
menu_line i _ = []

unfoldable pub menu_rows : ℕ → ℕ → List (ℕ × Request)
unfolding request_of
menu_rows zero i = []
menu_rows (suc rounds) i = menu_line i (request_of (pos i)) ++ menu_rows rounds (i + 1)

-- CHANGE_SLAVE_NAME is the eleventh enumerator from 0.
unfoldable pub print_main_menu : List (ℕ × Request)
unfolding menu_rows
print_main_menu = menu_rows 11 0

-- The number of each line is the one that is read as the command in its text.
abbrev pub ReadsBack : List (ℕ × Request) → Type 0
ReadsBack [] = Unit
ReadsBack ((i, command) ∷ rows) = (request_of (pos i) ≡ command) × ReadsBack rows

line-ReadsBack :
    (i : ℕ) (command : Request) (rows : List (ℕ × Request))
    → request_of (pos i) ≡ command
    → ReadsBack rows
    → ReadsBack (menu_line i command ++ rows)
line-ReadsBack i Request.start_master rows e h = (e, h)
line-ReadsBack i Request.stop_master rows e h = (e, h)
line-ReadsBack i Request.create_slave rows e h = (e, h)
line-ReadsBack i Request.delete_slave rows e h = (e, h)
line-ReadsBack i Request.connect_slave rows e h = (e, h)
line-ReadsBack i Request.disconnect_slave rows e h = (e, h)
line-ReadsBack i Request.start_slave_cycle rows e h = (e, h)
line-ReadsBack i Request.stop_slave_cycle rows e h = (e, h)
line-ReadsBack i Request.print_slave_data rows e h = (e, h)
line-ReadsBack i Request.print_log_data rows e h = (e, h)
line-ReadsBack i Request.automatic_test rows e h = (e, h)
line-ReadsBack i _ rows e h = h

rows-ReadsBack : (rounds i : ℕ) → ReadsBack (menu_rows rounds i)
unfolding menu_rows
rows-ReadsBack zero i = tt
rows-ReadsBack (suc rounds) i =
    line-ReadsBack i (request_of (pos i)) (menu_rows rounds (i + 1)) refl
      (rows-ReadsBack rounds (i + 1))

-- The menu offers eleven commands, each under the number that is read as that command.
pub print_main_menu-ReadsBack : (length print_main_menu ≡ 11) × ReadsBack print_main_menu
unfolding print_main_menu
print_main_menu-ReadsBack = (refl, rows-ReadsBack 11 0)
