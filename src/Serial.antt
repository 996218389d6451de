-- ===== src/Serial.antt =====
-- include/reflgen/serial: the interfaces that the formats implement, and the order of calls that they
-- prescribe.
pub mod Calls
pub mod Value
pub mod Contract
pub mod Utf
pub mod Path
pub mod Scalars
pub mod Enums
pub mod Cycle
