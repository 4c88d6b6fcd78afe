-- ===== src/Examples.antt =====
-- Concrete instances of what the development takes as parameters, and the theorems at them.
pub mod Toy
mod Hashing
mod Requests
mod Bridge
mod Sessions
mod Lookup
mod Service
mod Acceptance
mod Bridging
mod Threads
mod Directories
