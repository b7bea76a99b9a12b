-- ===== src/Lib.antt =====
-- NebulaKV: the storage layer and the Raft node of a replicated key-value store.
--
-- The program. Clients talk to a cluster of nodes. A node runs Raft (src/raft/node.cpp): it elects
-- a leader, replicates a log of commands, and applies the committed ones to a state machine, whose
-- data (src/raft/state_machine.cpp) lies in a log-structured store: writes go to a sorted table in
-- memory (src/memtable.cpp), a set of tables of which the newest is active (src/memtable_set.cpp),
-- and from there to tables on disk in two levels (src/sstable_manager.cpp), which a manifest lists
-- (src/manifest.cpp). A write-ahead log (src/wal_writer.cpp) brings the tables in memory back
-- after a crash (src/recovery_manager.cpp). The node's own term, vote, log and snapshot lie in
-- three files (src/raft/storage.cpp).
--
-- The parts.
-- - Prelude: names of the standard library, Boolean tests on numbers and byte strings, results
--   with exceptions (Result), operations on a state that may throw (Exec), ordered maps
--   (OrderedMap, for std::map), numbers as bytes (LittleEndian) and as digits (Decimal), and lists
--   as collections of their members (Members, with sort and filter).
-- - Storage: Validation is src/validation.cpp, MemTable is src/memtable.cpp, MemTableSet is
--   src/memtable_set.cpp. The functions keep the methods' names. Children of MemTable and
--   MemTableSet hold the proofs: MemTable.Accounting (order and memory count), MemTable.Writes
--   (what a write changes), MemTableSet.Layers (reading through the tables), MemTableSet.Newest
--   (the entry that a reader finds), MemTableSet.Refinement (each call against one ordered map)
--   and MemTableSet.History (any sequence of calls).
-- - Storage.Checksum is src/checksum_calculator.cpp. Storage.Wal is the write-ahead log:
--   Wal.Format is src/wal_format.cpp, Wal.Reader is src/wal_reader.cpp, Wal.Writer is
--   src/wal_writer.cpp and Wal.Recovery is src/recovery_manager.cpp. Wal.RoundTrip is about one
--   record, Wal.Scan about a file of them, and Wal.Recovery.Repair about what recovery makes of
--   it.
-- - Storage.BlockCache is src/block_cache.cpp: Budget is about eviction, Puts about put, History
--   about any sequence of calls.
-- - Storage.BloomFilter is src/bloom_filter.cpp, Members is about the keys in it.
-- - Storage.Manifest is src/manifest.cpp: Format holds the fields and CURRENT, Tables the
--   manifest, Manager load and commit; Parts and RoundTrip are about the formats, Commits is about
--   the directory.
-- - Storage.SsTable holds the types of a table on disk and TableFiles, the interface that stands
--   for SSTableReader and SSTableWriter. SsTable.Manager is src/sstable_manager.cpp, with the
--   methods in Manager, Flush, Selection and Compaction. Rounds is about the loop of flush and the
--   other threads, Merge about the entries of a compaction, Expansion and Selected about its
--   selection, FileIds about the names of files.
-- - Network.BoundedExecutor is src/network/bounded_executor.cpp with
--   include/nebulakv/network/bounded_executor.hpp, the pool of threads that serves requests. An
--   Action is a submission, a step of one worker or a shutdown. Conserves is about any sequence of
--   them, Drains, Empties and Shutdown about the end of a shutdown.
-- - Raft.Types is include/nebulakv/raft/types.hpp, with the interface of
--   include/nebulakv/raft/state_machine.hpp as a record over the type of the machine's state.
-- - Raft.Codec is src/raft/serialization.hpp, with Codec.RoundTrip.
-- - Raft.Storage is src/raft/storage.cpp: RoundTrip is about the contents of its files, History
--   about sequences of saves, Refusals about damaged files.
-- - Raft.StateMachine is src/raft/state_machine.cpp over DurableStore, the interface that stands
--   for PersistentKeyValueStore: Snapshot is about payloads, Applies about the calls of the store,
--   Recovered about recovery.
-- - Raft.Node is src/raft/node.cpp. Log holds the accessors of the log, Log.Merge the loop of
--   handle_append_entries, State the fields of RaftNode with become_follower and become_leader,
--   Vote handle_request_vote, Append handle_append_entries, Install handle_install_snapshot,
--   Commit apply_committed_locked, maybe_create_snapshot_locked and advance_commit_locked,
--   Election begin_election, Replicate replicate_peer and replicate_all, Submit submit and
--   trigger_snapshot, Recover the constructor. Run lists the steps a node can take; a run is any
--   sequence of them. Ballot is about terms and votes along runs and restarts. Commit.Applied,
--   Commit.Compaction, Commit.Committed and Commit.Quorum are about what is applied, what a
--   snapshot keeps and what is committed, Append.Stores and Append.Follows about the entries and
--   the commit index of a request. Example is the node that the tests use.
--
-- How the code is modelled. A method that a mutex protects is one step; where the code lets go of
-- the mutex, as around every call of a peer, the stretches before and after are separate steps,
-- with any others in between; in the SSTable manager these are arguments, functions of the
-- manager. An exception is a value, without its message; a handler that throws half-way leaves the
-- state it had reached. 64-bit unsigned numbers are natural numbers with the wrap-around written
-- out. Strings are lists of bytes. The sizes of C++ objects that the memory estimate uses are
-- those of a 64-bit platform. The loop that applies entries runs on fuel, the distance from
-- last_applied to the commit index; every round of it raises last_applied. The scan of a log file
-- runs on one more than the bytes of the file; every record takes at least one of them. The loop
-- that widens a compaction's selection runs on one more than the number of tables; every round but
-- the last one selects another table. The loop of flush runs on the list of what other threads do
-- to the manager within its rounds, behind which a round is undisturbed. The turns that the
-- executor's workers get after a shutdown are counted by steps_left: four for each task that
-- waits, and what each worker has left of its loop.
--
-- Not modelled: the threads, deadlines and random timeouts of a node (any step may come at any
-- time), failing writes of the log and of Raft's files, the length_error of Raft's files for a
-- key, a value or a name of 2^32 bytes or more (for a snapshot's payload it is modelled), and the
-- wait of submit for a quorum. The state machine is a parameter of the node, the persistent store
-- one of the durable state machine, and the files of tables are one of the SSTable manager, whose
-- first load of a directory, removal of old files, block cache and Bloom filter counters are left
-- out. The remaining files of src/ (the format, the reader and the writer of tables, the
-- persistent store, the transports, gRPC, the request processor, metrics and the programs) have no
-- model yet.
mod Prelude
pub mod Storage
pub mod Raft
pub mod Network
