-- ===== src/Lib.antt =====
-- Teti lets people's agents connect to each other and run tasks for one another. This library
-- models the part of its core that connects two Tetis, the parts that run a task of a peer, and
-- the workspaces that a task works in.
--
-- Connection/ is core/connection. Types and Protocol have the requests, answers and records of
-- types.ts and protocol.ts with their validation. Storage is storage.ts:
-- MemoryTetiConnectionStorage as functions on the list of records, FileTetiConnectionStorage as
-- functions on the document in the file (`none` where there is no file); Storage/File relates the
-- two call by call, and Storage/Runs over sequences of calls. World has the state that the
-- operations of handshake.ts work on, that is the store, the messages handed to the messaging
-- adapter, and a count of the readings of the clock and the adapter. Its monad returns a value or
-- a fault with the state as it is then, so that what an operation did before it threw stays.
-- Handshake is handshake.ts, one function per operation (createHandshakeRequest is
-- create_handshake_request, and so on), but for reconcileConfirmedPeerConnections, which is
-- Reconcile. Manager is manager.ts: `perform` is one call of TetiConnectionManager, `perform_all`
-- any number of them, one after the other.
--
-- Callability/TaskMachine is CallableTaskStateMachine of core/callability/task-machine.ts.
-- Callability/Execution is core/callability/execution.ts, the handle of an execution and its
-- validation. Callability/Registry is DurableExecutionRegistry of
-- apps/desktop/lifecycle-sidecar/runtime/callable/execution-store.ts, over the store in memory:
-- each operation loads the state, works on it, and saves it if it is valid. Control has the
-- operations that end or interrupt an execution, Prepare the one that starts or resumes it, and
-- Resumable says what it takes to resume one without the code's tests.
--
-- Delegation is core/delegation, plans that run a task by child agents one after the other, with
-- Validation and Planner for validation.ts and planner.ts, and Relations for
-- validateStateRelations. A plan's steps are the list of its child steps and its aggregation. What
-- apps/desktop/lifecycle-sidecar/runtime/tasks/service.ts does to a plan is in three files: Runner
-- has the entries of the audit and startDelegationStep, Finish finishLongHorizonStage with
-- completeDelegation (finish_stage), and Control approveDelegation, cancel and expireRecord
-- (approve_delegation, cancel_plan, expire_plan). A step that the service finds and mutates is
-- `modify_first` with the test that found it. Order, Steps, Planned, Provenance, Running,
-- Recording, Finishing and Remaining have the lemmas on the shape of a plan and on what one
-- operation does to it; Created, Ending, Canceling and Runs what the operations and their
-- sequences do. Where service.ts validates a plan before it saves it, the operation ends with
-- validate_plan of Validation. The runs of a plan in Runs have every event but the end of a child
-- that was canceled. Bundle is the text and the images of the final artifact.
--
-- LongHorizon is the session of a task that runs over several stages: its types from
-- core/task/transport.ts, Validation for core/task/long-horizon-validation.ts, and Session for
-- what service.ts does to it when it is created, paused and renewed.
--
-- Application is core/protocol: Types and Encoding have the envelopes that confirmed peers
-- exchange and their JSON, Payload the tests of payloads (validatePayload), Application itself the
-- validation of envelopes and their texts, and Header inspectApplicationEnvelopeHeader. Manager is
-- core/application/manager.ts, which sends and receives them and tracks the ids of those that it
-- handled. Receiving says how one turn of the receiving loop ends, Told and Again what the loop
-- tells of and what comes again, Lost what a receive that throws loses, and Sending what is sent.
-- Effects is the monad of Connection, Application and Relationship, of a state and faults.
--
-- Relationship is the relationship service of services/network, which asks the network's server to
-- request, accept, reject, block and revoke relationships. Store has what
-- relationship-command-store.ts and relationship-reconciliation-store.ts accept, Command the
-- commands and the test of documents, Service the calls of relationship-service.ts on commands,
-- Scan its reconciliation, and Calls the calls as its queue makes them. Its World is the stored
-- command and checkpoint, with a log of what was saved, sent and given up; Protocol is an
-- automaton that reads this log, Keeps, Recovery, Scanned, Settled and Runs relate the two, and
-- Feed says what a reconciliation applies.
--
-- Workspace has the types of core/workspace/types.ts, with Validation for validation.ts, and
-- LocalPath is core/application/local-path.ts; resolution of paths, which no code of these files
-- does, is defined in LocalPath/Resolution to say what an accepted path can name.
--
-- Release is core/release/policy.ts: versions, their order (Parts and Order), and the policy of
-- the oldest supported one.
--
-- Identity is core/identity/public-id.ts: the patterns of ids and addresses as functions on lists
-- of code points, and one function that normalises any of the four forms. Base has the shared
-- helpers: Boolean tests, lists and searches of them, results, and texts as lists of code points.
--
-- What stands outside the program is a parameter: in `Host` the local account, the clock, fresh
-- ids, the outcome of a delivery and Date.parse; the order of localeCompare; in `Env` the clock's
-- format, Date.parse and the digest of a checkpoint's file; in Delegation the ids of the id
-- factory, the targets that are resolved and the outcome of starting a child; in Application's
-- `Host` the account, the authorisations and deliveries, and in its `Format` JSON.parse and
-- JSON.stringify, Date.parse and the tests of payloads that core/ai-status and core/task define;
-- in `Network` the answers of the server, the identity, fresh keys and the callback of a
-- reconciliation. Nothing is assumed of them, but that a time and the JSON of an envelope are read
-- back as they were written, where a theorem says so. Texts are lists of code points where a
-- pattern reads them. Loops are structural recursion, but for the binary search of Bundle, which
-- has the length of the text as fuel, since the range that is searched gets smaller with each
-- turn, and for the scans of Relationship/Scan, whose number of turns is the server's: their fuel
-- is an argument, and Feed says how much is enough for a feed. Operations run one after the other,
-- as the registry's queue and the callers of the manager do.
--
-- Not modelled: the envelopes of connection messages, the payloads of tasks and of the AI status,
-- the file of the tracker of handled messages, the migration of the execution store's file and the
-- copying of checkpoints, the records and sessions of tasks around a plan, among them the expiry
-- that starting a child can meet, and the other parts of the repository, which are tasks'
-- transport, memory, observation, the services of the network, and the desktop application.
pub mod Base
pub mod Json
pub mod Identity
pub mod Connection
pub mod Callability
pub mod LocalPath
pub mod Delegation
pub mod Workspace
pub mod Release
pub mod LongHorizon
pub mod Relationship
pub mod Effects
pub mod Application
