-- ===== src/Lib.antt =====
-- bigarchive: an append store on KFS and the deduplicating snapshots that are written to it.
--
-- A snapshot of a virtual machine is a sequence of segments of about 2 MiB, each a sequence of
-- blocks that are named by their SHA-1 checksums. The writer looks up which segments and blocks
-- are known (from the parent snapshot, or in the common data store by Bloom filter and index) and
-- stores the rest in the machine's append store. The append store keeps its records in chunks,
-- hands out a handle for each, and finds a record again through the index of its chunk.
--
-- Files and code:
--   Exception           src/include/exception.h: exceptions as values, and `Result`
--   Marshal             src/include/serialize.h: bytes written and parsers of a stream
--     Stream            `std::istream::read` over memory
--     RoundTrip         reading back words, strings, objects and vectors
--   AppendStore/Types   src/append-store/append_store_types.h and .cpp
--     Handle, HandleLaws     `Handle` and `DeleteRecord`; packing and order
--     MetaData               `StoreMetaData`, the file `.meta_`
--     Records, RecordLaws    `DataRecord` and `CompressedDataRecord`
--     Cache                  `Cache`
--   AppendStore/Index   src/append-store/append_store_index.h and .cpp: `IndexRecord`,
--                       `IndexVector::find` and `bisearch`
--     Bytes, Search     the two byte images; `bisearch` as a lower bound
--     Load              `IndexVector::LoadFromFile`
--   AppendStore/Codec   src/append-store/CompressionCodec.h and .cpp, LzoCompressor.cpp
--   AppendStore/Chunk   src/append-store/append_store_chunk.h and .cpp: `Chunk`
--     Extract, Read     the records of a block; a block at its offset
--     Blocks            the files of a chunk as its blocks: Locate and Find for reading, Append,
--                       Steps and Waiting for writing, Flush and Reopen for both together
--     Files, Identity   a chunk by the names of its files: constructors, removal, closing
--   AppendStore/Names   the names of a chunk's files; the largest chunk number of a listing
--   AppendStore/Store   src/append-store/append_store.h and .cpp: `PanguAppendStore`
--     Reading, Closing  `Read`; `Remove`, `Close`, `Reload` and `GarbageCollection`
--     Opening           the constructor with its metadata file; append_store_utility.cpp
--     Exclusive         reader and writer of a chunk take turns: Writing, Turns,
--                       Reads, Steps
--     ReadsBack         `Read` of a handle: Readers, Values
--     Kept              `Append`, `Flush` and `Read` together: Values, Filling, Batch
--   AppendStore/Scanner src/append-store/append_store_scanner.h and .cpp: `AppendStoreScanner`
--     DeleteLog         the removals that it reads
--     Rounds, Blocks, Listing  what `Next` gives, one after the other
--   Fs                  src/fs/qfs_file_helper.h and .cpp: `QFSFileHelper`
--     Tree              src/fs/qfs_file_system_helper.h and .cpp: `QFSHelper`
--     Log               records of a log file
--   Snapshot/BitSet, Snapshot/Bloom
--                       src/snapshot/bloom_filter.h and .hpp, bloom_filter_functions.h and .cpp
--   Snapshot/Trace      src/snapshot/trace_types.h and .cpp: `Checksum`, `Block`, `Segment`
--   Snapshot/Types      src/snapshot/snapshot_types.h and .cpp: `BlockMeta`, `SegmentMeta`,
--                       `SnapshotMeta`, `VMMeta`
--   Snapshot/DataSource src/snapshot/data_source.h and .cpp: `DataSource`
--     Opening           the constructor
--     Layout, Segments  the recipe that `GetSegment` makes; its segments
--   Tests               runs and uses of the theorems on concrete inputs
--   Prelude             tests, lists, bits and little-endian words that all parts share
--
-- Correspondence: a method that changes its object takes the old object and gives the new one;
-- one that reads a stream gives the stream behind what it read. An integer of `w` bits keeps its
-- wrap-around as `% 2 ^ w`. Bytes are numbers, and a word in memory is its little-endian bytes. A
-- thrown exception is `err` of a `Result`.
--
-- Fuel: `bisearch` has one round more than the length of the vector, since each round shrinks the
-- range; `LoadFixSize` has one more than the bytes left in the stream, since each round reads a
-- block of 36 bytes; the loops over a block's records and over an index file have one round more
-- than the bytes, since each round reads one at least. The rounds of the scanner's `Next` are an
-- argument, since a record that was removed takes a round; one more than the values left is enough.
--
-- Interfaces: SHA-1 of OpenSSL (`Sha`), the arithmetic on `double` in `GetM` (`Doubles`), the KFS
-- client (`Kfs`, with what is relied on in `KfsLaws`) and miniLZO (`Lzo`; `CodecLaws` says that
-- decompression undoes compression) are parameters, and so is the class of the objects in a
-- serialized vector (`Serializable`). A file is its contents with its descriptors, and
-- the files by name come in as `KfsTree`, with what is relied on in `TreeLaws`; failures of
-- `GetSize` and of listings are left out. `WritesAll` is the case of a client whose writes are whole.
--
-- Not modelled: logging, timers, tools and simulations, the KFS client and miniLZO (libraries that
-- the code only calls). Nor are: the older common_data_store.cpp, the index of
-- common data (cds_*), the dirty bits, and the control, writer and reader of snapshots.
-- A file that the scanner reads is taken as it was when it was opened, and what reads or writes it
-- besides the scanner is left out.
pub mod Prelude
pub mod Exception
pub mod Marshal
pub mod Fs
pub mod AppendStore
pub mod Snapshot
pub mod Tests
