-- ===== src/State.antt =====
-- packages/engine/src/state.ts: the state store, its mutations and its validation of requests.
pub mod Context
pub mod Requests
pub mod Peers
pub mod Persons
pub mod Sweep
pub mod Evolution
pub mod Validity
pub mod Effect
pub mod Progress
