-- ===== src/Lib.antt =====
-- arbiter-core: the runtime of the storage nodes (SNodes) and of the stage-3 members of the
-- Sentio Arbiter.
--
-- The repository is a library of Go packages. A storage node (snode/) takes in parts of data,
-- promotes them from its unsafe to its safe tables on the arbiter's commands, and cleans up
-- rejected parts; what it must not forget stands in one file, state.json, behind the type
-- stateStore. A member (member/) keeps verified copies of other owners' partitions: it follows
-- the published manifests (member/manifestfeed), installs partitions behind an arithmetic gate
-- (member/gate), serves them to its host under leases while their owner is away (member/serve), and
-- reports to the arbiter (member/consensus). A verifier (verifier/) replays statements and keeps
-- what it computed in a bounded memo.
--
-- Files and the code they model:
--   Base and Base/*       shared helpers: tests and results, lists, orders, association lists for
--                         Go's maps, multisets and sorting (sort.Strings, maps used as counters),
--                         hex and decimal text, and what a replacement of a file may do
--                         (WriteOutcome: written; unwritten, the old file stands; unsynced, the
--                         new file stands although an error was returned).
--   Types                 the types of types.go that several packages pass on.
--   Gate, Gate/*          member/gate/gate.go and member/gate/classify.go: PlanPartition, Closure,
--                         PartitionSet and Classify, with what they promise each other.
--   Snode/LtHash          parseAccumulatorHex and accumulatorHex of snode/state.go.
--   Snode/State, Snode/State/*   stateStore of snode/state.go, and the purge gate (quiescent,
--                         ForgetTable) of snode/registry.go. A Store is the memory and the content
--                         of the file; each method is a function of what the file system answers
--                         and of the store, to the new store and the returned error.
--   Snode/PromoteMatch, Snode/PromoteMatch/*   safeMappings of snode/promote_match.go, with the logical
--                         partitions of dataplane/chparts/chparts.go.
--   ManifestFeed, ManifestFeed/*   member/manifestfeed: the LRU store (Cache, Recency) and Verify in
--                         ManifestFeed; NewFollower, Poll, Run's rounds, compute and walk in
--                         ManifestFeed/Follower. What the arbiter, the source of manifests and the
--                         callback answer are arguments of each call.
--   CheckpointSeq, CheckpointSeq/*   member/consensus/checkpoint_seq.go: Next and
--                         OpenCheckpointSeqStore, over histories of failed writes and restarts.
--   Quiescence, Quiescence/*   member/consensus/quiescence.go: the ledger and Observe in
--                         Quiescence; in Quiescence/Resolve the two halves of Resolve (what it
--                         remembers before it asks the arbiter, and its end, with the calls of
--                         Observe between them); in Quiescence/Reading ReadQuiescence and Quiet.
--   Registry              wire/table_registry_snapshot.go: what members read of the registry.
--   Serve, Serve/*        member/serve/lease.go: in Serve the leases and their file, acquire, renew
--                         and release; in Serve/Hooks BeforeInstall up to its wait and when its
--                         context ends, and AfterInstall; in Serve/Restart restoreLeases. In
--                         Serve/Conditions poll and evaluateLocked of conditions.go, in
--                         Serve/Matching activeTables and matchActive. What a poll reads, the
--                         clock, new ids and what a write of the file does are arguments; a
--                         pointer to a lease is its id.
--   ReplayMemo, ReplayMemo/*   verifier/replay_executor_memo.go: in ReplayMemo the bounded LRU memo
--                         (get, put, removeRun); in ReplayMemo/Calls Replay up to the executor
--                         (begin_replay) and from it on (finish_replay), the runs, and events
--                         between the halves of calls in flight. In ReplayMemo/Requests the
--                         replayMemoRequest of a request and the private request rebuilt from it.
--                         JSON text, SHA-256 and the executor are the record Executor.
--   Snode/OwnerAudit, Snode/OwnerAudit/*   snode/owner_audit_plan.go and auditPartitionLocked of
--                         snode/owner_audit.go: the reference and the plan; in Tables the state that
--                         says which tables are held. What ClickHouse lists before the drops and
--                         whether a DROP PART fails are arguments; the listing after the drops is
--                         what they left.
--
-- Conventions. A Go string is its list of bytes (Bytes). A uint64 is a natural number with its
-- wrap-around written out as % 2^64. A Go error is a constructor of the component's error type, one
-- for each refusal of the source; the texts of messages are left out. A map is an association
-- list; reading a missing key gives what Go's zero value gives where the source relies on it.
-- Methods hold the component's mutex from beginning to end, so a history is a list of calls.
--
-- Parameters. housegate's replay package (ManifestFeed) is a record of the manifest type with the
-- fields and checks that the feed reads, with no laws. housegate's payload.SumPartRowLtHashes
-- (Gate) is any function with the laws of Gate.Laws.IsRowSum: it accepts a list if it accepts each
-- hash, does not depend on the order, and reads back its own spelling. housegate's lthash.Hash
-- (Snode.LtHash) is any type with the laws of IsLtHash, a commutative group whose bytes read back.
-- The executor of the replay memo, with the JSON of a job, a replayMemoRequest and a result and with
-- SHA-256, is the record ReplayMemo.Calls.Executor; its hypotheses are ReplayMemo.Answers.Laws, that
-- the digest tells byte strings apart, and ReadsBack, of one request, that the JSON of it and of its
-- outcome is read back. All three have concrete instances in the modules of examples.
-- replay.OwnerEntry of a manifest and sitable.CopyTable are fields of what a poll reads
-- (Serve.Conditions.PollRead), with no laws. JSON text and the os package are not modelled: a file
-- is the value that it holds.
--
-- Fuel. Loops over slices are structural recursions. The walk of the manifest feed recurses on
-- MaxWalk less the hops made, as its own bound does. The eviction loops of the manifest store and
-- of the replay memo have fuel for each element of their list, since each round drops one
-- (ManifestFeed.Cache.evict-bounded, ReplayMemo.Bounded.put-IsMemo). Printing a decimal number
-- recurses on one more than the number, which bounds its digits.
--
-- Not modelled: ClickHouse statements, gRPC and HTTP, metrics, logs, configuration, signatures, and
-- the packages that consist of them; goroutines are modelled only as the order of their calls.
pub mod Base
pub mod Types
pub mod Registry
pub mod Gate
pub mod Snode
pub mod ManifestFeed
pub mod CheckpointSeq
pub mod Quiescence
pub mod Serve
pub mod ReplayMemo
