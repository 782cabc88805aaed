-- ===== src/Lib.antt =====
-- tsedge is an embedded time-series store in C. Points go to a buffer per series and to a
-- write-ahead log; a full buffer becomes one compressed block at the end of a segment file; reads
-- use an index of the blocks to seek and to skip.
--
-- The parts of the program and where they are modelled:
-- - Point: the point of include/tsedge.h. A timestamp is the bit pattern of its int64_t and a value
--   that of its double, so that both are numbers below 2 ^ 64. int64_t arithmetic wraps round.
-- - Bitstream: src/compression/bitstream.c. Each function has the name of the C function without
--   `tsedge_`. A writer returns the bytes that it stores; a reader takes the bytes from the cursor
--   on and, where it moves the cursor, returns the bytes behind it. The loops on a uint64_t recurse
--   on the accessibility of `<`; a read stops when the shift exceeds 63.
-- - Compress: src/compression/compress.c, delta-of-delta timestamps and XORed values. The loop that
--   computes the size and the loop that stores are separate, as in the code. malloc is the
--   parameter `alloc` on the size that is asked for. Compress/Streams describes the two kinds of
--   streams without the decoders' loops, with every byte that they read in front of the end.
-- - Double: the arithmetic of doubles, which the processor does, is a record of parameters.
-- - Block: src/storage/block.c, the header of 72 bytes with its checks and the payload behind it.
-- - Segment: src/storage/segment_writer.c and the index scan of src/storage/segment_reader.c. Which
--   calls on a FILE succeed is the record Stdio; what a failed write or close has put into the file
--   is its field `persisted`. Segment/Reader has the range reads, by index and
--   sequential; the caller's callback is a function of the points that it has had so far.
-- - Segment/Layout is the abstract view: a file is a sequence of blocks, each with its points.
-- - Wal: src/storage/wal.c. Wal has the entries and their checks, Wal/Buffer the log in memory and
--   what goes to wal.log, Wal/Replay the replay and the strict verification. A series name is the
--   list of its bytes. Wal/Replay takes the two operations of the database that it calls as an
--   interface, Database.
-- - Segment/Files: the names and paths of segment files, src/storage/segment_files.c, with
--   tsedge_path_join of src/core/db.c.
-- - Series: one series in memory, src/core/series.h, with its table of segment ids and its index
--   (src/core/series_index.c) and the choice of the active segment
--   (src/storage/segment_rotation.c). The directory of the series is a field too: a table of its
--   regular files by segment id. Series/Disk is its abstract view, segments of blocks. Series/Append
--   has src/core/series.c: appends, batches and the flush, on a database that is seen from one of
--   its series; which calls on the FILEs of the log and of the segments succeed is the record Env.
--   Series/Append/Run is any sequence of such calls. Series/Query has the range reads and the
--   aggregates of src/core/series_query.c, with the counters of tsedge_read_debug_stats, and
--   Series/Query/Windows the aggregates by window. Series/Rebuild is the index built from the files,
--   and Series/Retention has src/core/series_retention.c, the deletion of old segments.
-- - Tests: the theorems at concrete inputs.
--
-- Bounds: a block has 1 to 16384 points (TSEDGE_BLOCK_MAX_POINTS at its default), which is also the
-- capacity of a buffer, and segments are rotated at 64 MiB (TSEDGE_SEGMENT_MAX_BYTES). The scan of
-- a file runs on a number of rounds, one more than the file has bytes; every round but the last
-- takes a header of 72 bytes, so that it never runs out. The replay and the verification of the log
-- run on one round more than it has bytes, the chunks of a batch and the rounds of
-- tsedge_series_append_batch on one round for each point, the growth of the buffer on 64 rounds,
-- and the digits of a segment id on 10.
--
-- Not modelled: null pointers and free; the replay's database behind its interface; of src/core,
-- what opens, lists, deletes and verifies series and databases, the scan of a directory for segment
-- files (an argument of the rebuilding of the index), and the disk quota where one is set (an
-- argument of the flush); src/api, which checks arguments, and src/export, which prints.
pub mod Bitstream
pub mod Block
pub mod Common
pub mod Compress
pub mod Double
pub mod Point
pub mod Segment
pub mod Series
pub mod Tests
pub mod Wal
