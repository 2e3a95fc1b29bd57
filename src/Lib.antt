-- ===== src/Lib.antt =====
-- Verification of botfam, the supervisor of a family of agents that work on one forge.
--
-- The program's core is event delivery: the supervisor observes the forge, translates what it sees
-- into work items in session.db, hands these to workers, and executes the forge actions that workers
-- propose. What it must not do is lose an event, dispatch one twice, or execute an action twice. That
-- is what is modelled here, from the Go code:
--
--   Base, with Base.Tests, Base.Lists, Base.Results, Base.Permuted and Base.Text: the shared helpers. Exec is a method
--   that changes a state and returns a value or an error; what was written before an error stays.
--   Sql: a statement and a transaction on the SQLite connection (database/sql). The engine may report an
--   error at any statement, BEGIN or COMMIT: the field `faults` of the state says where, and every
--   theorem without a hypothesis about it holds for all schedules of errors. A statement or commit
--   that reports an error has changed nothing, and a transaction that does is rolled back.
--   Sql.Laws: what statements and transactions keep.
--   Store: the tables of internal/eventdelivery/store/store.go, one record for each CREATE TABLE.
--   Store.Outbox: EnqueueForgeAction, ClaimForgeAction, ReleaseOrphanedForgeActionClaims and
--   RecordForgeActionAttempt, with their constraints (PRIMARY KEY, UNIQUE, REFERENCES) written out. Its
--   children prove what any sequence of these calls keeps (Calls, Commit, Claim, Unique, Settled) and
--   what each call answers (Enqueue, Effects).
--   WorkerChannel: ProposeForgeAction and its helpers in internal/eventdelivery/workerchannel/server.go,
--   over the outbox. The forge executor is a parameter: its answer may depend on every call before,
--   and the list of the calls that it got is part of the state.
--   Observe: internal/eventdelivery/observe. Observe is observation.go, watermark.go and dedupe;
--   Observe.Record is ingest.go with recordObservation and createWorkItem; Observe.Detail is detail.go;
--   Observe.Scalar is gappoll.go; Observe.Translate is translate.go; Observe.Gate is gate.go. The other
--   children are proofs: Grows and Calls (what any calls keep), Ingest, Once, Recorded and Again,
--   NewEvent, FirstContact, Dedupe. The forge is a parameter, the record DetailQuerier.
--   Observe.Subject is the artifact of a notification (bootstrap.go), Observe.Worklist is worklist.go,
--   bootstrap.go and the methods of observer.go, and Observe.Poll proves what a poll reports.
--   Observe.Adapter is ForgeDetailQuerier of detail.go.
--   Store.Records and Store.Pending: StartRun, RecordArtifact, RecordTelemetrySpan, LogGitAction and
--   PendingWorkItems of store.go (Store.Pending.Order is a proof); WorkerChannel.Services: DispatchWork, RecordArtifact and
--   SubmitTelemetry of server.go. Store.Migrations: ApplyMigrations of store.go, where what SQLite
--   makes of a migration's script is a parameter. Store.Files: WriteCompleteFile of artifacts.go and
--   EnsureSessionGitignore of store.go, on one path.
--   Lease: the lease of internal/eventdelivery/singlehost/lease.go on a map of session files with locks.
--   Lease.Calls runs the calls of several processes but Release; a call is one step, since Acquire has
--   the file to itself from its flock on, and the others touch only a file that their process has
--   locked. Release is no such step: it removes the file by its path after it has unlocked it. It is
--   modelled by its two parts, and Lease.Race lets other processes run between them; a path whose file is
--   removed has a new, unlocked file when it is opened again. Lease.Exclusive, Lease.Race and
--   Lease.Fencing are proofs. Lease.Resolve is resolver.go and LiveSupervisorPID.
--   Base.Runes, Base.Affixes and Base.Numerals: texts character by character, and strconv's integers.
--   Mailbox: internal/mailbox. Mailbox.Sanitize, Mailbox.Message and Mailbox.Parse are message.go;
--   Mailbox.Reader is the part of net/mail that ParseMessage uses; Mailbox.Spool is spool.go and
--   cursors.go on the files of one spool, with a schedule of the I/O errors. Their children are proofs:
--   Mailbox.Reader.Trim and Lines, Mailbox.Parse.Fields, Values and RoundTrip, Mailbox.Spool.Names,
--   Mailbox.Spool.Deliver and Mailbox.Spool.Ack. The package time is the parameter Times.
--   Ingest: the messages that internal/ingest/forge.go builds; Ingest.Poll: its Poll, and pollOnce of
--   ingest.go, which deliver into a spool. Ingest.Poll.Delivers, Checkpoint, Sorted,
--   Watermark and Lossless are proofs. The forge's answers and Go's tables of Unicode are parameters; of
--   notifications of one second, whose order Go leaves open, the earlier one in the list comes first.
--   Forge.Scope and Forge.Closure: internal/forge/scope.go; the maps of numbers are lists, so the order
--   in which Go ranges over a map does not matter to the set that is selected. The loop over the
--   queue takes fuel: two more than the task references of all issues, and Forge.Closure.Complete
--   proves that this is enough. Forge.Scope.Epics is a proof.
--   IssueGraph: internal/issuegraph/graph.go; IssueGraph.Edges is a proof.
--   FamConfig.Harness: internal/famconfig/harness.go, where the environment is an argument, also when
--   it is that of the process; FamConfig.Harness.Reconciled is a proof. FamConfig.Fam: derive.go, the flags
--   of famconfig.go and ParseActor of resolve.go.
--   Memory: internal/memory/memory.go; Memory.Slug is a proof. strings.ToLower is a parameter.
--   Tests: concrete runs, and each theorem with hypotheses at an input that meets them.
--
-- Numbers (ids, counts, artifact and issue numbers) are not negative and have no upper bound, except
-- the fencing token, which is read with the range of uint64, and the sequence number of a message,
-- an integer that is read with the range of int64. A token of 2^63 or more, which database/sql refuses
-- to store, is stored here unless the engine reports an error. The times of event delivery are numbers of
-- milliseconds; those of messages are a parameter, and the watermark counts seconds from 1970 on. The
-- text of fmt's %q and of json.Marshal, random ids and what a remote service answers are parameters.
-- Texts are sequences of code points. The loops are structural recursions on lists and texts, so no
-- fuel is used outside the closure of an epic and the printing of decimal numbers, whose rounds are
-- one more than the number. Counts that Go returns beside an error are left out, since the callers
-- drop them.
--
-- Not modelled: the command line, the MCP server, the HTTP transport and generated code, git and the
-- file system below these, and the package metareview. Of famconfig, the files and directories that it
-- reads are left out; of issuegraph, the rendering; of ingest, the start of Run with its writer lock; of
-- memory, the store over git; of forge, the HTTP client.
pub mod Base
pub mod Sql
pub mod Store
pub mod WorkerChannel
pub mod Observe
pub mod FamConfig
pub mod Forge
pub mod Ingest
pub mod IssueGraph
pub mod Lease
pub mod Mailbox
pub mod Memory
pub mod Tests
