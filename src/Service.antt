-- ===== src/Service.antt =====
-- service.rs: the local socket service. `Reader` reads one request of a connection, `Accept` takes
-- connections, `Broker` is the thread that owns the published state.
pub mod Reader
pub mod Accept
pub mod Socket
pub mod Ownership
pub mod Client
pub mod Broker
