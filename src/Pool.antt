-- ===== src/Pool.antt =====
-- `ConnectionPool` of include/flowcoro/db/connection_pool.h: its data in State, its operations in
-- Lease and Upkeep, its life as steps in History, and what is proved of it in the others.
pub mod State
pub mod Lease
pub mod Upkeep
pub mod History
pub mod Capacity
pub mod Fuel
pub mod Leases
pub mod Cleanup
pub mod Validation
mod Tests
