-- ===== src/Lib.antt =====
-- A verification library for bitdb, a log-structured key-value store in the manner of Bitcask, and for
-- the consensus node that comes with it.
--
-- A database (bitdb/db.h, db.cpp) appends every write to the active data file and keeps an index from
-- keys to positions in memory. A record (bitdb/data/log_record.cpp) has a checksum, a type, two sizes
-- as varints (bitdb/utils/coding.cpp), a key and a value; its key carries the id of the transaction it
-- belongs to (bitdb/data/transaction_record.cpp). A data file (bitdb/data/data_file.cpp) is written at
-- its end and read at an offset. A full active file is retired, and a new one takes the next id. A
-- batch (bitdb/batch.cpp) collects writes, appends them under one transaction id with a record that
-- finishes it, and then tells the index. Opening a directory reads the files again and replays them.
--
-- Which file models what:
--   Bytes            bitdb/utils/bytes.h: a view is the list of its bytes
--   Coding           bitdb/utils/coding.h and coding.cpp
--   Status, Action   bitdb/status.h: results, and methods that change an object; CHECK_OK is a bind
--   Env              the crc32c library and the calls behind bitdb/io/file_io.cpp, as parameters
--   Record, Txn      bitdb/data/log_record.*, transaction_record.*
--   DataFile         bitdb/data/data_file.*
--   TreeMap, Index   bitdb/ds/treemap.h, bitdb/index/index.h, treemap_index.cpp, hashmap_index.cpp
--   SkipList         bitdb/ds/skiplist.h: nodes in a heap; SkipList.Keyed: the operations on keys;
--                    SkipList.Iterator: its iterator
--   Index.SkipListIndexer  bitdb/index/skiplist_index.cpp and skiplist_iterator.cpp
--   FileTable, Db    bitdb/db.h, db.cpp: an open database
--   Db.Load          bitdb/db.cpp: LoadDataFiles, LoadIndexFromDataFiles, LoadIndexFromHintFile
--   Db.Open          bitdb/db.cpp: Open, behind LoadMergenceFiles
--   Db.Journal       what the data files of a database hold, as lists of entries
--   Db.Merge         bitdb/db.cpp: Merge; Db.Merge.Mergence: LoadMergenceFiles, GetNonMergedFileID
--   Db.Scan          bitdb/db.cpp: NewIterator, ListKeys, Fold; bitdb/iterator.h
--   Batch            bitdb/batch.*
--   Raft             bitdb/raft/raft.h, raft_protocol.h, raft_storage.h: one node
--   Codec            bitdb/codec/serializer.h; Codec.Protocol: the messages of raft_protocol.h as bytes
--   Strings          bitdb/common/string_utils.cpp
--   HttpRequest      bitdb/net/http/http_request.*: the parser of a request
--   Timer            bitdb/timer/timer.h: a heap of timers
--   ThreadPool       bitdb/common/thread_pool.h: its threads as steps
--   RingBuffer       bitdb/common/buffer.h: RingBuffer and Buffer
--   Examples         concrete inputs
-- Each of these files holds definitions; the modules below it hold proofs, with these exceptions:
-- Index.TreeIndexer, Index.SkipListIndexer, SkipList.Keyed, SkipList.Iterator, Db.Load, Db.Open,
-- Db.Merge with its Mergence, Codec.Protocol and, below Raft, Entries, Election and Leader hold definitions
-- of their parts too. Db.Journal holds those of the proofs below it.
--
-- A method is a function from the object to an outcome and the object. An outcome is a value or a
-- status code; the texts of messages are left out. No result at all (`none`) stands for undefined
-- behaviour: a null pointer, a write past a buffer, a shift by too much, an assertion. Numbers are
-- natural numbers, with the wrap-around of the source's types written out. A file is the list of its
-- bytes, and write(2), pread(2), fsync(2), fstat(2) and the checksum are the fields of a record `Env`;
-- `IsReliable` states what their documentation promises where no error occurs. An indexer is a record
-- of operations with laws `IsMap`, which the map indexers and the skip list indexer are shown to have.
--
-- A skip list is a heap of nodes, each with its pointers by level, and the address that is handed
-- out next; the engine that draws the levels is a sequence of any numbers. The proofs see the nodes
-- as towers in the order of their keys: on each level a node's pointer leads to the first tower
-- behind it that reaches the level. The searches share one loop over the levels, whose test is a
-- parameter.
--
-- Loops on bytes are recursions on the bytes, on the accessibility of the number that shrinks, or,
-- for the loops over a file, on fuel of one more than the bytes of the file; each round of such a
-- loop moves the offset by a record, which has a byte at least, so the fuel is enough. The loop of
-- Split has the length of the text for its fuel, which the delimiter shortens in each round, unless
-- it is empty. A walk along a level of a skip list has one round for each address that was handed
-- out, and a scan of the database one for each key and one more.
--
-- Bounds: file ids below 2 ^ 32, for restarts a data file size below 2 ^ 64, records that have with
-- the header at most 2 ^ 31 - 4096 bytes, which is what one call of write(2) or pread(2) transfers
-- and an int can count, and, for the round trips, transaction ids below 2 ^ 28 and offsets below
-- 2 ^ 31. A buffer on the stack has as many bytes as what it reads, so `IsReliable` asks for a limit on
-- the stack that leaves room for one of that size.
--
-- A restart is DB::Open with `merge_after_open` false; with the default, true, the merge of one Open
-- that finds stored keys makes the next Open fail in LoadMergenceFiles (Db.Merge.Mergence.Loss). A
-- restart takes the data files as the process has left them: what was written is there, since
-- write(2) and the file system are reliable, and readdir(3) is sorted by LoadDataFiles. Entries of a
-- directory are told apart by name, and rename(2) is a parameter that says which names it takes.
--
-- The heap of timers is a list with places; HeapifyUp and HeapifyDown have fuel for each place on
-- their way. The thread pool is a relation of steps that its threads take in any order, with the
-- workers that are awake, asleep or busy as numbers, and both condition variables; a thread may
-- also wake up without being notified.
--
-- Not modelled: locks and threads elsewhere, since each method holds its lock from start to end;
-- the parsing of file names; the arena, which nothing uses; std::map in the serializer; of Raft the
-- heartbeats and the snapshots; the network, HTTP responses and the server, RPC, coroutines,
-- logging with its queue of buffers, and the copy of the tinyjson library.
pub mod Base
pub mod Status
pub mod Bytes
pub mod Coding
pub mod Env
pub mod Record
pub mod DataFile
pub mod Txn
pub mod Action
pub mod TreeMap
pub mod SkipList
pub mod Index
pub mod FileTable
pub mod Db
pub mod Batch
pub mod Raft
pub mod RingBuffer
pub mod Codec
pub mod Strings
pub mod HttpRequest
pub mod Timer
pub mod ThreadPool
pub mod Examples
