-- ===== src/Cgroups.antt =====
-- src/cgroups.rs: the configuration of a cgroup, its controllers, and its life.
pub mod IoMax
pub mod Config
pub mod Controllers
pub mod Create
mod Tests
mod Unit
