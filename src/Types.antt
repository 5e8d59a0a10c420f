-- ===== src/Types.antt =====
-- pkg/types: the records of Protocol A, and how they are written and read.
pub mod Flags
pub mod Arrays
pub mod Time
pub mod Records
