-- ===== src/Lib.antt =====
-- The readers of damaged ZFS pools in dumpbin-py-zfs-rescue: the extractor in C++, the LZ4 decoder in C,
-- and the core of the rescue tool in Python.
--
-- `extractor/` reads a RAID-Z1 pool from three device files. A block pointer gives the address and the
-- size of a block; `vdev_raidz_map_alloc` of extractor/zio.cpp spreads the sectors of the block over the
-- devices, `read_physical` reads the columns into one buffer, and `lz4_decompress_zfs` of
-- extractor/lz4.cpp, the same text as in de.c, turns a compressed block into its text. The rescue tool,
-- zfs/, does the same in Python: `BlockPtr.parse` of zfs/blockptr.py reads a block pointer, `read_block` of
-- zfs/zio.py reads its block by `_read_physical`, which repairs a bad device by the parity, compares its
-- checksum, and decompresses it by zfs/lz4zfs.py or zfs/lzjb.py.
--
-- - Common: native numbers, the arithmetic of `uint64_t` with its wrap-around, lists, and the C heap
--   (Common/Memory): `malloc` and `free` number the allocations, an access outside a live block is a
--   `fault`, a failed assertion is `aborted`. Common/Bits and Common/Fields read `&` and `|` as
--   arithmetic.
-- - Raidz: `abd_t` and its functions (Abd), `vdev_raidz_map_alloc` and `vdev_raidz_free` (Map),
--   `Raidz1Device` with `read_at` and `read_physical` (Read). What the map is stands in Geometry, Alloc,
--   Layout and Sectors, what a read does in Steps, Deliver, Bytes and Result, and what it does where
--   files cannot be read in ShortBlock and Short.
-- - Lz4: the macros that read numbers from bytes (Bytes), those that copy (Copy), the decoder
--   `LZ4_uncompress_unknownOutputSize` (Decode), `lz4_decompress_zfs` (Decompress), and the function of
--   zfs/python-lz4-0.7.0+dfsg.c.bck/src/python-lz4zfs.c over the decoder (Binding, Decompressed). The
--   format is described in Format and Block with no reference to the decoder. Copies, Periodic, Match,
--   Finish, Lengths, Gets, Literals, Sequence, Refine, Loop and Header lead from the copies of eight
--   bytes at once up to it; Unique and Text are about the one text that a block has, and Accept about
--   the blocks that are decoded. Narrow is the copy of a match on a 32-bit machine, and Overflow is
--   about one near the end of the output. Endian has the macros for the distance of a match on machines
--   of both byte orders, Machine the choice between the configurations, Tables the tables of the
--   compressor, Module the start of the Python module and its helpers, and Program `main` of de.c.
-- - Pool: the structures of extractor/defs.h: what the reader looks at (Disk), the types of objects
--   (Types), dnodes (Dnode, Slots), datasets (Dataset), ZAPs (Zap), all read as lists of fields
--   (Fields, Written), and the bits of a block pointer (Bits, Pointers). `loadLabel` (Label), `loadBlkPtr`,
--   `loadDnode` and `loadMos` (Blocks), and what they do (Agree, Ring, Reads).
-- - Command: `main` of extractor/main.cpp: `getopt` and `strtok` (Parse), and the calls (Run). Tokens,
--   Options and Outcomes say what becomes of a command line.
-- - Rescue: Python code, where a result is a value or an exception (Py). `_map_alloc` (Stripe),
--   `_read_physical` and `_xor` of zfs/zio.py (Reader, Repair), with the `read` of the block proxy as a
--   parameter; `fletcher4` (Fletcher), `DVA` and `BlockPtr.parse` (BlockPtr) of zfs/blockptr.py;
--   `UBArray` of zfs/uberblock.py with `find_active_ub` of zfs/label.py (Uberblock, Active);
--   `lz4zfs_decompress` (Lz4) and `lzjb_decompress` (Lzjb); `read_block` over all of these (Block), with
--   the `decompress` of zlib as a parameter. SameStripe, SameRead, SameBlock, SamePointer and SameUblock
--   compare with the extractor and its structures, Repaired and Rescued are about a bad device, Lz4Ends,
--   LzjbSteps and LzjbEnds about the loops of the decompressors, Lz4Lengths, Lz4Text, Lz4Decodes and
--   Lz4Same about the text that `lz4zfs_decompress` gives, Delivered, Checked and DecodedBlock about what
--   `read_block` returns. The fuel of the decompressors is counted from the number in the header or the
--   size of the input: a round of LZ4 reads a byte, eight rounds of LZJB do.
--
-- A function of the source has its name in small letters with `_` between the words. A pointer is a
-- distance from the start of its buffer, or the number of an allocation with such a distance. The calls
-- of the operating system are a parameter, `Files`: the bytes that a read delivers; that it delivers all
-- of them is a hypothesis where it is needed. A loop recurs on the rounds that are left, or on fuel: the
-- loops of the decoder move forward in the input or the output with every round, so the distance to the
-- end and one is enough, and the results say that the fuel never runs out.
--
-- The machine is little-endian with words of 64 bits, except where Narrow, Endian and Machine say so.
-- `malloc` does not fail. Not modelled are the bytes that a failed decoder leaves in its output, the rest
-- of the Python tool, which follows dnodes, datasets and ZAPs and writes files, the name-value lists of
-- its labels, its printing, its block server and the network part of its proxy, `lzjb_compress`, which
-- nothing calls, and the headers that are copies of those of ZFS. `DNode::zap` and the constructor of
-- `DNode` have no body in the sources.
pub mod Common
pub mod Raidz
pub mod Lz4
pub mod Pool
pub mod Command
pub mod Rescue
