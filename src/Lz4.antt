-- ===== src/Lz4.antt =====
-- The LZ4 decoder that stands in de.c, extractor/lz4.cpp and the C module of the Python code: memory
-- and results (`Run`), the copies (`Copy`), the decoder (`Decode`), and what is proved of them.
pub mod Run
pub mod Copy
pub mod Decode
pub mod Bytes
pub mod Decompress
pub mod Tests
pub mod Copies
pub mod Periodic
pub mod Match
pub mod Finish
pub mod Format
pub mod Lengths
pub mod Gets
pub mod Block
pub mod Literals
pub mod Sequence
pub mod Refine
pub mod Loop
pub mod Header
pub mod Unique
pub mod Accept
pub mod Text
pub mod Binding
pub mod Decompressed
pub mod Narrow
pub mod Overflow
pub mod Endian
pub mod Module
pub mod Program
pub mod Tables
pub mod Machine
mod Witness
mod Examples
