-- ===== src/System.antt =====
-- The master, its slaves and the configurator together: src/master.c, src/slave.c and the writes of
-- src/configurator.c to the control segment, as steps on the shared state.
pub mod Settled
pub mod Local
pub mod Serving
pub mod Admission
pub mod Orders
pub mod Steps
pub mod Reachable
pub mod InBounds
pub mod Transfer
pub mod Handshake
