-- ===== src/Rescue.antt =====
-- The rescue tool in Python, zfs/: what its reader of pools shares with the extractor, and what it does
-- besides.
pub mod Py
pub mod Stripe
pub mod SameStripe
pub mod Fletcher
pub mod BlockPtr
pub mod SamePointer
pub mod Repair
pub mod Repaired
pub mod Reader
pub mod SameRead
pub mod SameBlock
pub mod Rescued
pub mod Lz4
pub mod Lz4Ends
pub mod Lz4Lengths
pub mod Lz4Text
pub mod Lz4Decodes
pub mod Lz4Same
pub mod Lzjb
pub mod LzjbSteps
pub mod LzjbEnds
pub mod Block
pub mod Delivered
pub mod DecodedBlock
pub mod Checked
pub mod Uberblock
pub mod Active
pub mod SameUblock
pub mod Witness
pub mod Examples
