-- ===== src/SystemCalls.antt =====
-- nachos/kernel/exception.cc, with nachos/utility/objid.h and SetMsg of kernel/msgerror.cc: the system
-- calls, as they act on the registers of the calling thread, the table of object identifiers and the
-- last error.
pub mod Exec
pub mod State
pub mod Arguments
pub mod Threads
pub mod Files
pub mod Sync
pub mod Handler
pub mod Preserving
pub mod Parts
pub mod Registers
pub mod Objects
pub mod Texts
mod Examples
