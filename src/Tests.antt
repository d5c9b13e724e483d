-- ===== src/Tests.antt =====
-- The theorems at concrete inputs, and runs of the definitions.
mod Lookup
mod Store
mod Cache
mod Pack
mod Encoding
mod Leases
mod Server
mod Groups
mod Cleanup
mod Dispatch
mod Build
mod Open
mod Mora
