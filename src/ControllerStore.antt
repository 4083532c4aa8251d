-- ===== src/ControllerStore.antt =====
-- The controllers' trust store: firmware/controller_store.h and firmware/controller_store.c.
pub mod Types
pub mod Memory
pub mod Store
pub mod Admin
pub mod Valid
pub mod Compare
pub mod Check
pub mod Boot
pub mod Find
pub mod Change
pub mod Trust
pub mod History
pub mod Lookup
pub mod Flash
mod Tests
