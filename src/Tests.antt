-- ===== src/Tests.antt =====
-- Every theorem at a concrete input.
mod Batches
mod Fixtures
mod Durable
mod Values
mod Requests
mod Runtime
mod Orders
mod Service
mod Spawning
mod Memory
mod Together
mod Units
