-- ===== src/Tests.antt =====
-- Tests on the inputs of the repository's own unit tests, and each property at a concrete input.
mod Fixtures
mod Policy
mod Engine
mod Registry
mod Service
mod Adapter
mod Control
mod Line
mod Ipc
mod Socket
mod Daemon
