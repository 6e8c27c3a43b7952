-- ===== src/Tests.antt =====
-- Concrete services for the tests, and the theorems at concrete inputs.
pub mod Memory
pub mod Delivery
pub mod Services
pub mod Requests
pub mod Machine
mod Processes
mod Contexts
mod Arriving
mod Settling
pub mod Together
mod Once
mod Counting
mod Histories
pub mod Running
mod Interleaving
mod Registering
