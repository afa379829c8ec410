-- ===== src/Pool.antt =====
-- The on-disk structures of a pool, and the functions of `Raidz1Device` that follow them.
pub mod Disk
pub mod Label
pub mod Types
pub mod Fields
pub mod Dnode
pub mod Dataset
pub mod Zap
pub mod Bits
pub mod Written
pub mod Slots
pub mod Pointers
pub mod Blocks
pub mod Agree
pub mod Ring
pub mod Reads
mod Witness
