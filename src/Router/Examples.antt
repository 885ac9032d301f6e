-- ===== src/Router/Examples.antt =====
-- The theorems on the router at one small network.
pub mod Network
mod Forwarding
mod Answers
mod Retries
mod Releasing
mod Resolving
mod Returning
mod Racing
mod Sweeping
mod Dispatching
