-- ===== src/Kernel.antt =====
-- The kernel proper (kernel/): strings, log, locks, scheduler, message ports, performance profiles.
pub mod Log
pub mod Sched
pub mod Strings
pub mod Sync
pub mod Adaptive
pub mod Ipc
pub mod Interrupts
