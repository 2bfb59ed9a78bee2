-- ===== src/Tests.antt =====
-- The tests: a stand-in for the SDK with small functions in place of bincode, the runtime and the
-- virtual machine, accounts and contexts, and every theorem at a concrete input.
mod Codec
mod System
mod DemoSdk
mod Accounts
mod Examples
mod TokenExamples
mod ProcessExamples
mod DeployExamples
mod ClientExamples
mod ShipExamples
mod ExactExamples
mod PanicExamples
mod CallExamples
mod FireblocksExamples
