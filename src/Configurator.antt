-- ===== src/Configurator.antt =====
-- src/configurator.c: the table of the slaves that the configurator created, its requests, and what
-- it does with the answers. A line that the user types is an argument, and so are the results of
-- `fork` and `sigtimedwait`.
pub mod Input
pub mod Exhausted
pub mod Menu
pub mod Cycle
pub mod AutomaticTest
pub mod Data
pub mod LogFilter
pub mod Main
pub mod Start
pub mod Typed
pub mod Shown
pub mod Entries
pub mod Registry
pub mod Printed
pub mod Arguments
use real_time_cyclic.Prelude.{
  ℕ, suc, ◌+◌, ℤ, Bool, true, false, List, ◌∷◌, Option, none, some, set, get_or,
}
use real_time_cyclic.Common.{
  Shm, ControlShm, Signal, sigusr2, sigint, Ret, rtc_success, rtc_error, Response, ack, nack,
  response_size, no_pid,
}
use real_time_cyclic.Table.{Slot, at, no_idx, out_of_bounds, assign_idx, get_assigned_idx}
use real_time_cyclic.Os.{
  Os, M, ◌>>=◌, ◌>>◌, pure, get, modify, crash, attempt, given◌run◌otherwise◌,
}

pub record CreatedSlave : Type 0 where
  pub pid : ℤ
  pub connected : Bool

abbrev pub blank : CreatedSlave
blank = record { pid = no_pid; connected = false }

-- A process that `fork` and `execv` started as a slave: what `fork` returned, and the arguments.
pub record Spawned : Type 0 where
  pub pid : ℤ
  pub name : List ℕ
  pub parameters : List ℕ

-- `configurator_context_t`, with the control segment, the processes that were started and the
-- signals that were sent; `shmp` is
-- `none` while the pointer is NULL.
pub record Config : Type 0 where
  pub shmp : Option Shm
  pub control : ControlShm
  pub master_pid : ℤ
  pub created_slaves_number : ℕ
  pub created_slave : List CreatedSlave
  pub spawned : List Spawned
  pub sent : List (ℤ × Signal)

unfoldable pub assign_local_idx : ℤ → Config → Slot
assign_local_idx pid c = assign_idx (λ s. s.pid) blank pid c.created_slave

unfoldable pub get_assigned_local_idx : ℤ → Config → Slot
get_assigned_local_idx pid c = get_assigned_idx (λ s. s.pid) blank pid c.created_slave

-- `self.created_slave[localIdx]` is written at an index that was looked up; NO_IDX is -1.
unfoldable pub write_local : Slot → (CreatedSlave → CreatedSlave) → M Config (Unit {0})
write_local (at i) f =
    modify
      λ c. record c { created_slave = set c.created_slave i (f (get_or c.created_slave i blank)) }
write_local no_idx f = crash
write_local out_of_bounds f = crash

unfoldable pub register_slave_locally : ℤ → M Config (Unit {0})
unfolding assign_local_idx
register_slave_locally slave_pid = do
  modify (λ c. record c { created_slaves_number = suc c.created_slaves_number })
  c ← get
  write_local (assign_local_idx slave_pid c) (λ s. record { pid = slave_pid; connected = false })

-- The two assignments with which a slave is forgotten.
unfoldable pub forget_slave : ℤ → M Config (Unit {0})
unfolding get_assigned_local_idx
forget_slave pid = do c ← get; write_local (get_assigned_local_idx pid c) (λ s. blank)

unfoldable pub set_connected : ℤ → Bool → M Config (Unit {0})
unfolding get_assigned_local_idx
set_connected pid b = do
  c ← get
  write_local (get_assigned_local_idx pid c) (λ s. record s { connected = b })

module _ (os : Os) where
  -- `kill` with the choice between the two results.
  abbrev signal_or_fail : ℤ → Signal → M Config (Unit {0}) → M Config Ret
  signal_or_fail pid sig k = do
    failed ← attempt (os.kill_fails pid sig) (λ c. record c { sent = (pid, sig) ∷ c.sent })
    given failed run pure rtc_error otherwise (do k; pure rtc_success)

  unfoldable pub send_stop_master_request : M Config Ret
  send_stop_master_request = do
    c ← get
    signal_or_fail c.master_pid sigint (modify λ d. record d { master_pid = no_pid })

  -- The four requests that go through the master.
  abbrev command_master : ℤ → M Config Ret
  command_master slave_pid = do
    modify (λ c. record c { control = record (c.control) { affected_slave_pid = slave_pid } })
    c ← get
    signal_or_fail c.master_pid sigusr2 (pure tt)

  unfoldable pub send_start_cycle_slave_request : ℤ → M Config Ret
  send_start_cycle_slave_request slave_pid = command_master slave_pid

  unfoldable pub send_stop_cycle_slave_request : ℤ → M Config Ret
  send_stop_cycle_slave_request slave_pid = command_master slave_pid

  unfoldable pub send_connect_slave_request : ℤ → M Config Ret
  send_connect_slave_request slave_pid = command_master slave_pid

  unfoldable pub send_disconnect_slave_request : ℤ → M Config Ret
  send_disconnect_slave_request slave_pid = command_master slave_pid

  unfoldable pub send_delete_slave_request : ℤ → M Config Ret
  send_delete_slave_request slave_pid = signal_or_fail slave_pid sigint (pure tt)

-- The response that the master wrote before its signal; `none` when `sigtimedwait` fails, and then
-- the response is not looked at.
unfoldable pub receive : Option Response → M Config (Unit {0})
receive none = pure tt
receive (some r) = modify λ c. record c { control = record (c.control) { response = r } }

unfoldable pub wait_connect_slave_response : Option Response → ℤ → M Config (Unit {0})
unfolding receive set_connected
wait_connect_slave_response (some ack) slave_pid = do
  receive (some ack)
  set_connected slave_pid true
wait_connect_slave_response r slave_pid = receive r

unfoldable pub wait_disconnect_slave_response : Option Response → ℤ → M Config (Unit {0})
unfolding receive set_connected
wait_disconnect_slave_response (some ack) slave_pid = do
  receive (some ack)
  set_connected slave_pid false
wait_disconnect_slave_response r slave_pid = receive r

-- Both only print the answer.
unfoldable pub wait_start_slave_cycle_response : Option Response → M Config (Unit {0})
unfolding receive
wait_start_slave_cycle_response r = receive r

unfoldable pub wait_stop_slave_cycle_response : Option Response → M Config (Unit {0})
unfolding receive
wait_stop_slave_cycle_response r = receive r
