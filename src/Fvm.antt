-- ===== src/Fvm.antt =====
-- runtime/src/runtime/fvm.rs: the runtime over the syscalls of the FVM, and the trampoline. The
-- kernel behind the syscalls is a parameter, with its state passed explicitly.
pub mod Kernel
pub mod Instance
pub mod Queries
pub mod State
pub mod Trampoline
pub mod Validation
pub mod Transactions
pub mod Committed
pub mod States
pub mod Sending
