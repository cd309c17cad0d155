-- ===== src/Seccomp.antt =====
-- src/seccomp.rs
pub mod Syscalls
pub mod Libc
pub mod Profile
pub mod Filter
pub mod Vm
pub mod Verdict
pub mod Names
pub mod Supported
pub mod Faults
pub mod Linux
mod Tests
mod Unit
mod TableUnit
pub mod Install
pub mod Load
pub mod Length
