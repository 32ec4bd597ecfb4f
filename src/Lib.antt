-- ===== src/Lib.antt =====
-- FalconFS: verification of the metadata server's core, the C code under falcon/.
--
-- The metadata server is a PostgreSQL extension. Directory operations parse a path and lock the
-- directories on it (falcon/utils/path_parse.c) with reader-writer locks in shared memory
-- (falcon/utils/rwlock.c). A shared cache in front of the directory table, whose entries carry those
-- locks, answers the searches of the parse; a transaction logs what it does to the table, and commit
-- brings the cache up to date (falcon/dir_path_shmem/dir_path_hash.c,
-- falcon/metadb/directory_table.c). New files get inode numbers from a sequence, and the part of a file's name
-- and its parent make the key whose hash chooses a shard and so a server
-- (falcon/utils/path_parse.c, falcon/utils/utils.c, falcon/metadb/meta_handle_helper.c,
-- falcon/metadb/shard_table.c). The row of a file is in the inode table of its shard
-- (falcon/metadb/meta_handle_helper.c). Messages are segments in a buffer
-- (remote_connection_def/remote_connection_utils/serialized_data.h). Operations on several servers
-- are two-phase commits (falcon/distributed_backend/remote_comm_falcon.c,
-- falcon/transaction/transaction.c), and a worker cleans up what a failure leaves behind
-- (falcon/transaction/transaction_cleanup.c).
--
-- Files:
--   Common.antt and Common/: tests on numbers, lists, words and bits, families, results, keys.
--   RwLock.antt: RWLockAttemptLock (attempt), RWLockDeclare, RWLockUndeclare, RWLockRelease,
--     RWLockReleaseAll and RWLockCheckDestroyable (declare, undeclare, release, release_all,
--     check_destroyable) on the lock word and the table of held handles. RwLock/System.antt: all
--     backends, where RWLockAcquire is the steps between its atomic operations. RwLock/Word.antt to
--     RwLock/Moves.antt hold the lemmas, RwLock/Invariant.antt, RwLock/Safety.antt,
--     RwLock/Waiter.antt, RwLock/Readers.antt and RwLock/Held.antt the invariants and theorems.
--   Cleanup.antt: Cleanup2PC, the cleanup of one server, AddInprogressTransaction and
--     RemoveInprogressTransaction, Write2PCRecord; Cleanup/Laws.antt and Cleanup/Safety.antt.
--   RemoteComm.antt: the states of the connections and FalconRemoteCommandPrepare of
--     falcon/distributed_backend/remote_comm_falcon.c; RemoteComm/Decide.antt:
--     FalconRemoteCommandCommit, FalconRemoteCommandAbort, ClearRemoteTransactionGid, and what
--     FalconTransactionCallback (falcon/transaction/transaction.c) does with them;
--     RemoteComm/Votes.antt, RemoteComm/Outcome.antt, RemoteComm/Ended.antt, and
--     RemoteComm/Recovery.antt (with the cleanup). RemoteComm/Connections.antt: what
--     GetForeignServerConnection does at the start of a prepare, a commit and an abort, errors
--     included; an error of the commit leads to the abort. RemoteComm/Commands.antt:
--     FalconAppendRemoteCommandToWorkerList, FalconSendCommandAndWaitForResult, and what
--     GetForeignServerConnection (falcon/metadb/foreign_server.c) does with the states;
--     RemoteComm/Logs.antt, RemoteComm/Delivery.antt and RemoteComm/Rounds.antt lead to
--     RemoteComm/Requests.antt and RemoteComm/Served.antt (all calls of a transaction).
--   Shard.antt: falcon_build_shard_table, falcon_update_shard_table, ReloadShardTableShmemCache,
--     SearchShardInfoByHashValue, SearchShardInfoByShardValue, GetShardTableData,
--     GetShardTableSize, HashShard and the ranges of falcon_renew_shard_table;
--     Shard/Rows.antt (rows in order), Shard/Search.antt, Shard/Build.antt, Shard/Update.antt,
--     Shard/Routes.antt (sequences of calls), Shard/Clients.antt.
--   Ids.antt: GetNextSequenceNum, GenerateInodeIdBySeqAndNodeId, HashPartId and
--     CombineParentIdWithPartId; Ids/Issue.antt (all backends) and Ids/Fields.antt.
--   PathParse.antt: the rounds of PathParseTreeInsert (visit, walk, create_directory,
--     remove_directory, share_target); PathParse/Insert.antt: the whole of it, and
--     VerifyPathValidity; PathParse/Segments.antt and PathParse/Names.antt (the cutting of a
--     path), PathParse/Visit.antt, PathParse/Walk.antt, PathParse/Created.antt,
--     PathParse/Reached.antt and PathParse/Conflicts.antt. PathParse/Check.antt:
--     CheckWhetherPathExistsInDirectoryTable.
--   DirTable.antt: SearchDirectoryTableInfo, InsertIntoDirectoryTable and DeleteFromDirectoryTable of
--     falcon/metadb/directory_table.c.
--   DirHash.antt: the entries, the log and FindNextItem of falcon/dir_path_shmem/dir_path_hash.c;
--     DirHash/Ops.antt: EliminateDirPathHashByLRU, the search, the insertion and the deletion,
--     CommitForDirPathHash, AbortForDirPathHash, ClearDirPathHash and falcon_acquire_hash_lock.
--     DirHash/Lookup.antt, DirHash/Pins.antt, DirHash/Coherent.antt, DirHash/Moves.antt,
--     DirHash/Steps.antt, DirHash/Changes.antt and DirHash/Commit.antt lead to DirHash/Runs.antt
--     (whole transactions); DirHash/Scan.antt to DirHash/Evict.antt and DirHash/Counts.antt (the
--     elimination).
--   Inode.antt: SearchAndUpdateInodeTableInfo of falcon/metadb/meta_handle_helper.c; Inode/Rows.antt
--     (the unique index) and Inode/Effects.antt. Inode/Unlink.antt: the last loop of
--     FalconUnlinkHandle, falcon/metadb/meta_handle.c.
--   Serialized.antt: SerializedDataInit, SerializedDataClear, SerializedDataApplyForSegment,
--     SerializedDataAppend and SerializedDataNextSeveralItemSize of
--     remote_connection_def/remote_connection_utils/serialized_data.h; Serialized/Growth.antt and
--     Serialized/Segments.antt.
--   Tests.antt, RequestTests.antt and EvictTests.antt have runs of the model and instances of the theorems.
--
-- State and errors: a component's state is a record, an operation is a function on it, and an error is
-- a value. An error of falcon_build_shard_table rolls its table back; one of the reload leaves the
-- cache filled and invalid. The interleavings of backends on a lock are a step relation, one step for
-- each atomic operation, with at most 2046 backends, so that no field of the lock word overflows.
-- In the directory cache one backend works at a time, and what others hold is in the lock words; a
-- request that is not granted is an error of its own there.
--
-- Bounds: the binary search has the number of rows for its fuel, and the loops over a path one
-- round more than it has bytes; a run out of fuel is an error of its own. The loops of
-- the directory cache have fuel, and a theorem says how much an elimination needs; the loop that waits
-- for memory in the cache may run for ever, and then answers an error of its own. The growth
-- of a buffer has 32 rounds, enough for every size up to 2^31. Words are natural numbers
-- taken modulo their width. Range points and hash values are non-negative, as the code makes them.
--
-- Parameters: what libpq answers on a connection, whether one can be opened,
-- and whether CommitForDirPathHash returns in the end of a transaction; the order of the servers in PostgreSQL's hash
-- table; PostgreSQL's hash_bytes_uint32, its nextval, whose batches are at least 32 apart
-- (the sequence of falcon--1.0.sql increments by 32), the answers of a remote server to a command; for
-- the directory cache the hash value, whether PostgreSQL has memory for one more entry, the order in
-- which hash_seq_search returns entries from the first and from a random bucket, and what the memory
-- of a new entry holds. The path parse takes the search of a directory as a parameter.
--
-- Bounded in the code only: use counts of the directory cache are integers without the bound of int32_t,
-- and a shard's host and port are left out.
--
-- Not modelled: a PANIC of PostgreSQL and repeated attempts at an abort, the other handlers of
-- falcon/metadb/meta_handle.c, the explicit transaction blocks of falcon/transaction/transaction.c, the shared memory
-- allocator, the connection pool and the RPC adapters, and the C++ client and
-- store. Memory contexts, signals and the shared memory set-up have no counterpart here.
pub mod Common
pub mod RwLock
pub mod Cleanup
pub mod RemoteComm
pub mod Shard
pub mod Ids
pub mod PathParse
pub mod Inode
pub mod DirTable
pub mod DirHash
pub mod Serialized
