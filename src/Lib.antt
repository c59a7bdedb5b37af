-- ===== src/Lib.antt =====
-- NovaKV: a key-value store on a log-structured merge tree, served over the RESP protocol.
--
-- The program. A command arrives on a connection in a NetworkBuffer, RESPParser takes it from there,
-- CommandExecutor runs it on DBImpl and RESPEncoder writes the answer into another NetworkBuffer. A
-- write goes to the WAL and the skip list of the active MemTable. A full MemTable becomes immutable, a
-- background thread writes it as a table of level 0, and merges level 0 into level 1 when it has two
-- tables. The ManifestManager keeps which tables and WALs are alive, in a log of edits that is now and
-- then replaced by a snapshot. Get and the iterator look from the newest table to the oldest.
--
-- The files.
--   Prelude        helpers: tests, lists, byte strings, words of 8 bits each, maps of ids.
--   ValueRecord    include/ValueRecord.h: ValueType and ValueRecord.
--   Wal            src/WalHandler.cpp: CalculateCRC32, AddLog (add_log), LoadLog (load_log).
--   Manifest       src/ManifestManager.cpp: the manager's state with its two files (Manager), its
--                  methods under their names; Codec has the bytes of both files and their readers.
--   SortedMap      std::map<std::string, ValueRecord> with try_emplace.
--   BloomFilter    include/BloomFilter.h: CreateFilter, KeyMayMatch and the hash.
--   Tables         the interfaces of a memory table (MemOps) and of a table on disk (TableOps), with
--                  their laws; Reference has the plainest tables that keep them.
--   SsTable        the table on disk: Format (include/Storage.h, include/FileFormats.h), Block
--                  (src/BlockBuilder.cpp), Builder (src/SSTableBuilder.cpp: Add, Finish and its
--                  parts), Reader (src/SSTableReader.cpp: Open, GetRecord, Get, ForEach); Interface
--                  makes it a TableOps.
--   SkipList       include/SkipList.h: nodes at addresses, insert_element, search_element,
--                  get_random_level and the iterator; Memory makes it a MemOps.
--   MemTable       include/MemTable.h: the skip list with its log.
--   Compaction     src/CompactionEngine.cpp: PrepareL0ToL1, BuildL0ToL1SST, InstallL0ToL1 and
--                  HasVisibleValueInL1 over the two levels.
--   Db             src/DBImpl.cpp: Get, Put (make_room under the state lock, then write_mem),
--                  MinorCompaction (begin_minor, build_minor_sst, finish_minor), CompactL0ToL1
--                  (begin_compact, finish_compact_with) and NewIterator; Background has BackgroundLoop,
--                  one lock scope at a time, and the states that are reached when another thread
--                  calls Put in between.
--   Recovery       src/RecoveryLoader.cpp: RecoverFromWals (add_found, replay_wals), and the part of
--                  the constructor of DBImpl that makes the new log and calls it (start_db).
--   DbIterator     src/DBIterator.cpp: the cursor.
--   NetworkBuffer  src/network/NetworkBuffer.cpp: the vector with its two indices.
--   Resp           src/network/RESPEncoder.cpp (Encoder), src/network/RESPParser.cpp (Parser), and
--                  std::to_string with std::from_chars (Decimal); Grammar has the protocol's
--                  arrays as a grammar of its own.
--   Command        src/network/CommandExecutor.cpp: Execute and the handlers.
--   Server         include/network/Connection.h and src/network/TcpServer.cpp: a connection, with
--                  HandleWorkerCompletions (complete_task), FailConnectionProtocol, the effect of a
--                  write and IsConnectionDrained; Pending is the map of responses by number.
--   ThreadPool     include/network/ThreadPool.h: the critical sections of enqueue, Shutdown and the
--                  workers; Steps has the step relation, with the wakeups of the condition variable.
--   TcpServer      include/network/TcpServer.h and src/network/TcpServer.cpp: the handlers over all
--                  connections (HandleAccept, HandleRead and FailConnectionProtocol here; HandleWrite
--                  and HandleWorkerCompletions in Writes; Stop, Cleanup and Run in Stops). Owed counts
--                  the tasks that are still to be answered; Served has the step relation.
-- In each part the module of that name has the definitions; its children have the proofs, and Runs the
-- theorems at concrete inputs.
--
-- How it is modelled. A byte is a number, a string a list of bytes, an unsigned integer of w bits a
-- number with its wrap-around written out; integers in files are little-endian, as on the machines the
-- program is built for. A file is its bytes, and what the file system does at a write (Faults), readv
-- received or an uninitialised variable held (Junk) is an argument. An unordered map is a list whose
-- order, which C++ leaves open, no theorem uses. Keys are compared as unsigned bytes. A lock scope of
-- DBImpl is one step; what a thread does outside of a lock reads only what no other thread changes.
-- CompactL0ToL1 is called by the background thread alone, as in the server.
--
-- Loops on fuel. LoadLog, ReplayLog and Parse take fuel by the length of the input, since each round
-- takes at least one byte of it or stops; the scan of the iterator takes one unit for each row. The
-- theorems below give a result, so the fuel is enough.
--
-- Pointers and files. A Node of the skip list stands at an address of a heap, and a step that has no
-- node to go through is a fault, `none`. A table file is mapped as its bytes, and a read outside of
-- them is a fault. The draws of get_random_level are an argument. A table file is written without
-- errors; build_fitting counts rows that a file cannot hold as a build that fails, which the database
-- handles.
--
-- The server. Handlers of the event loop, steps of workers and Stop are atomic, in any order. What
-- accept, readv, write and epoll_ctl answer is an argument of the handler, and so is what the reads
-- of the eventfd answer; what epoll_wait answers is one of a turn of the loop of Run (run_turn). The
-- histories of Served end where Run leaves its loop: Cleanup then closes all connections, and after
-- an epoll_wait error it drops the answers that were not sent. HandleRead takes fuel by the readable
-- bytes, since each command takes some; the loop over the ready responses takes fuel by the pending
-- responses, since each round takes one.
--
-- Not modelled. SkipList::delete_element, which nothing calls; the loading of the tables at a start
-- and the destructor of DBImpl are not there, and neither is the setup of sockets, epoll and
-- eventfd. GetStatus and Sync only read. The calls of std::filesystem do not throw: where fs::rename
-- does, in ManifestManager::PersistState, the exception goes through the callers up to the thread.
-- The logger is input and output.
pub mod Prelude
pub mod ValueRecord
pub mod Wal
pub mod Manifest
pub mod SortedMap
pub mod BloomFilter
pub mod Tables
pub mod SsTable
pub mod SkipList
pub mod MemTable
pub mod Compaction
pub mod Db
pub mod Recovery
pub mod DbIterator
pub mod NetworkBuffer
pub mod Resp
pub mod Command
pub mod ThreadPool
pub mod Server
pub mod TcpServer
