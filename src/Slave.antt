-- ===== src/Slave.antt =====
-- src/slave.c and src/slave.h. `Node` and the modules that use it are the code that runs on the
-- slave's own segment; `Signals` chooses the segment and the handler.
pub mod Node
pub mod Name
pub mod Requests
pub mod Cycle
pub mod Signals
pub mod Start
pub mod Threads
pub mod Kept
