-- ===== src/Master.antt =====
-- src/master.c and src/master.h. `Link` and the modules that use it are the code that runs on one
-- slave's segment; `Slots`, `Processor` and `Commands` are the code that chooses the segment.
pub mod Link
pub mod Send
pub mod Request
pub mod Reply
pub mod State
pub mod Init
pub mod Processor
pub mod Commands
