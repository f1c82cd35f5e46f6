-- ===== src/Inventory.antt =====
-- services/inventory-service: stock lots, the capacity ledger of the locations, reservations.
pub mod Stock
pub mod Tables
pub mod Capacity
pub mod Changes
pub mod Lots
pub mod Reserve
pub mod Fulfil
pub mod Service
pub mod Routes
pub mod Runs
pub mod Invariant
pub mod Life
pub mod Effects
pub mod Once
pub mod Expiry
pub mod Tests
