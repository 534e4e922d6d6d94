-- ===== src/Lib.antt =====
-- A verification library of the RMDB database server, for the parts that decide what a transaction
-- sees and may write, and for the data structures below them.
--
-- The program: sessions (src/rmdb.cpp) parse and plan statements, executors (src/execution) run them
-- over heap files (src/record) and B+ trees (src/index), both on pages of a buffer pool
-- (src/storage, src/replacer), with a log for recovery (src/recovery). The transaction manager
-- (src/transaction) gives each transaction a snapshot, keeps the older versions of each tuple, refuses
-- conflicting writes, guards unique keys, orders commits and, for serializable transactions, watches
-- the rw-conflict graph. The executors call it before they change a heap file or a tree.
--
-- The files, with the code that each is about:
--   Prelude                Boolean tests, lists and maps over native numbers, shared by all
--   Bitmap                 src/record/bitmap.h (class Bitmap; `mark` is its `set`)
--   Replacer               src/replacer/lru_replacer.h and .cpp (class LRUReplacer)
--   Watermark              src/transaction/watermark.h and .cpp (class Watermark)
--   Txn.Defs               src/transaction/txn_defs.h and transaction.h: the shared data
--   Txn.Mvcc               src/transaction/transaction_manager.cpp: tuple states and undo chains.
--     Reads                GetVisibleTuple, ResolveVisibleTupleImpl
--     Writes               CheckAndAcquireWrite, AcquireWriteAndRecord
--     Records              RecordInsert/Update/Delete, the restorations of a failed statement
--     Endings              what commit, abort, ReleaseWriteOwners and the collection do to tuple states
--     Snapshot, Conflicts, FirstWrites, Endings.Commit, Endings.Abort   what is shown of them
--   Txn.Publication        the same file: Reserve-, Cancel-, Await- and CompleteCommit...; Order, Progress
--   Txn.Unique             the same file: the unique-key registry. Keys (the shard hash), Reserve
--                          (ReserveUniqueKey, MarkUniqueKeyDeleted), Finish (restore, prepare, commit,
--                          abort); Restore, Ownership (Steps, Shards, OneOwner) and Revival hold
--                          what is shown
--   Txn.Ssi                the same file: intervals, rw edges, dangerous structures
--   Index.Compare, Index.Node   src/index/ix_index_handle.h and .cpp: ix_compare, IxNodeHandle
--   Record                 src/record/rm_file_handle.h and .cpp, rm_defs.h, src/storage/page.h: the heap
--                          file of a table, as its header, its pages and what the handle keeps in memory
--     Slots, FreePages     first_available_slot; the list of pages with free space
--     Ops                  get, insert, update, delete, and the delete that quarantines
--     Reserve              slot reservations; Scan: rm_scan.cpp; Layout: RmManager::create_file
--     Sample               a small file for the tests
--     FirstFree, Valid, Moves, Chain, Distinct, Unlink, Grow, Room, Write, Insert, Change,
--     Extend, Place, ReadBack, ScanOrder   what is shown of them, from one page's slots up to whole calls
--   Recovery               src/recovery/log_manager.h, log_defs.h: log records and their bytes.
--     Bytes, Lengths, RoundTrip   numbers as bytes, the size of a record, reading back
--     Manager              src/recovery/log_manager.cpp: LogManager and its buffers
--     Durable, Flush       which bytes are on file, and when
--     Analyze              src/recovery/log_recovery.cpp: the scan of the log file. Where it starts is an
--                          argument, in place of the restart checkpoint. Noted, Whole: what it collects
--     Replay               the same file: redo and undo over the heap files of the open
--                          tables, from what the scan collected; Images, Changes, Passes,
--                          Undone, Recover: what is left at a tuple
--
-- How the code is read. A function that holds one lock (or all it needs) throughout is one step; where
-- calls of several threads interleave, a step relation lists the steps. CommitUniqueKeyEntries locks one
-- shard after the other: it is one step per shard in Txn.Unique.Ownership.Shards, and taken as one step
-- in Txn.Unique.Ownership.Steps; neither has the restoration of a failed statement as a step. Transaction ids, timestamps,
-- page and slot numbers are natural numbers, which do not wrap; INVALID_TXN_ID and INVALID_TS are
-- `none`. Hashes are on 64-bit words with the wrap-around written out, `% 64` stands for `& 63`. An
-- `unordered_map` is an association list, an ordered map a list in the order of its keys. A null
-- transaction is `none`. Errors are values of `Result`; where a throwing call leaves something behind,
-- it is returned beside the result. A tuple's record is its bytes. Keys of an index are bytes; a float
-- is its 32 bits in the format of IEEE 754, and `<` of a NaN is false.
--
-- Bounds and fuel. The walk along undo links takes fuel, and one round more than there are older
-- versions is enough. The binary searches of a node take as many rounds as there are keys, and that
-- is enough. Bits of a byte are checked over the table of all bytes. The walks along the free pages of
-- a heap file take as many rounds as the file has pages, which is enough where the list is well formed;
-- a walk that runs longer would end in the error `out_of_rounds`, which the source does not have. A log
-- sequence number does not wrap, and a field of a log record is its bit pattern.
--
-- Not modelled: the retry of ReadVisibleTuple around the heap read, begin, commit and abort as
-- whole sequences, static checkpoints, the stale-index registry, predicate reads and write intents
-- of the serializable mode, the tree operations over nodes, the bulk load of heap files, the buffer
-- pool, locks, the restart checkpoint of recovery and
-- the rebuilding of the indexes, the planner and the executors, which no file
-- here is about; the parser, which is generated; files, sockets and threads, which are input and
-- output. A fetch of a page never fails for want of a frame, and a write of the log never falls short.
pub mod Prelude
pub mod Bitmap
pub mod Watermark
pub mod Replacer
pub mod Txn
pub mod Index
pub mod Record
pub mod Recovery
