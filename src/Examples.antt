-- ===== src/Examples.antt =====
-- The theorems at concrete inputs, and tests of the definitions.
mod Aggregate
mod Backend
mod Channels
mod Config
mod Frontend
mod Policy
mod Pool
mod Process
mod Auth
mod File
mod Gate
mod Gateway
mod Lifecycle
mod Session
mod Surface
mod Tenant
