-- ===== src/Examples.antt =====
-- Concrete services, on which the theorems are applied and the definitions run.
pub mod Database
pub mod Documents
pub mod Keys
pub mod Fixture
mod Points
mod Limits
mod Requests
mod Sessions
mod Profiles
mod Trips
mod Memory
mod Timestamps
mod Lives
mod Json
mod Events
mod Listings
mod Faults
mod Concurrent
mod Startup
mod Server
