-- ===== src/Loader.antt =====
-- scripts/ref/bpf_loader/src/lib.rs: the loader program.
pub mod Accounts
pub mod Executor
pub mod Buffer
pub mod Deploy
pub mod Upgrade
pub mod Authority
pub mod Close
pub mod Process
pub mod Cache
pub mod Lamports
pub mod Frozen
pub mod Panics
