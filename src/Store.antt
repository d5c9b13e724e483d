-- ===== src/Store.antt =====
-- `LookupStore` of anki-addon/fast_store.py.
pub mod Payload
pub mod State
pub mod Lookups
pub mod Paths
pub mod Changes
pub mod Coherent
pub mod Answered
pub mod Model
pub mod Simulation
pub mod History
pub mod Gate
pub mod Leases
