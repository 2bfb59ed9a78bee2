-- ===== src/Runtime.antt =====
-- What the loader stands on: results, accounts, the invoke context, actions on it, and the
-- functions of the Solana SDK and of the virtual machine, which are parameters.
pub mod Outcome
pub mod Account
pub mod Action
pub mod Sdk
pub mod Invoke
