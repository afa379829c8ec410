-- ===== src/Raidz.antt =====
-- The reads of a RAID-Z device in extractor/zio.cpp: the buffers (`Abd`), the map of one I/O to the
-- columns of a stripe (`Map`), and `Raidz1Device::read_physical` (`Read`). The children below these
-- prove what they do.
pub mod Abd
pub mod Map
pub mod Read
pub mod Geometry
pub mod Alloc
pub mod Steps
pub mod Deliver
pub mod Bytes
pub mod Result
pub mod ShortBlock
pub mod Short
pub mod Layout
pub mod Sectors
pub mod Witness
