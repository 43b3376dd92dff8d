-- ===== src/Lib.antt =====
-- A model of the core of llm-api-mind: the backend that keeps the history, the memory and the runtime
-- of one conversational agent, and the theorems that make its parts correct.
--
-- The parts, and the files that model them:
--
-- Storage (Storage.antt and its children) is the rows of backend/app/storage/models.py and the
-- operations of backend/app/storage/repository/: sessions.py and _shared.py in Storage/Sessions,
-- history.py in Storage/History, the events and the maintenance jobs of runtime.py in Storage/Events
-- and Storage/Jobs, and a part of memory.py in Storage/Memories. The database is a record of tables,
-- each a list of rows in the order of insertion; an operation takes the database and returns the next
-- one, and takes what the clock and `uuid4` would give as arguments. `none` is a refused call or a
-- `ValueError`. A time stamp is a number of ticks; `ORDER BY` is an insertion sort.
--
-- Chronology is backend/app/runtime/history_compaction.py. Chronology/Messages has the helpers on
-- provider messages, Chronology/SourceMap `build_chronology_source_map`, and Chronology/Partition
-- `build_history_partition_plan`. The source map reads the storage: the session's provider history,
-- its completed turns, and the request traces of the turns. The partition plan reads the map. A run
-- of the map raises `TypeError`, ends early with a failure, or returns. Equality of decoded JSON,
-- `json.dumps`, `sha256`, `str` and the division in floating point of `_estimate_tokens` are the
-- fields of the record Python, a parameter. Token counts are natural numbers, so `max(0, a - b)` is
-- the subtraction that stops at 0.
--
-- Modules is the activation of agentic modules: backend/app/agentic_modules/validation.py and the
-- versions, windows and manifest fields of backend/scarlet_agentic_module_sdk/contracts.py that it
-- reads. Modules/Semver parses and compares versions on code points, Modules/Ledger is the dict of
-- blocked modules with its diagnostics, Modules/Graph has the search for cycles and the topological
-- order, and Modules/Plan is `build_activation_plan`. The three loops of the source that are not
-- over a list run on fuel: `visit` of the cycle search has one unit for each node of the graph, since
-- a call marks a node that had no mark; the propagation has one more round than there are manifests,
-- since a round that changes something blocks one more module; the queue of the topological order has
-- one round for each active module, since a module enters the queue once. Modules/Graph/Ends and
-- Modules/Plan/Ends are about the measures of the first two.
--
-- Provenance is the audit and the exact repair of backend/app/runtime/memory_provenance.py over the
-- storage: Provenance/Classify, Provenance/Audit and Provenance/Repair. Case folding, white space,
-- hashing and decimal text are the fields of the record Text, a parameter.
--
-- Stream is backend/app/api/chat_stream_v2.py: Stream/Replay has the pages of replayed events,
-- Stream/Turns the folding of one event into the turns, and Stream/Reducer `reduce_stream_events`,
-- whose fingerprints and dumps are a parameter.
--
-- Maintenance is the background jobs of backend/app/runtime: maintenance_scheduler.py in
-- Maintenance/Scheduling, Maintenance/Repairs, Maintenance/Runner and Maintenance/Worker,
-- maintenance_history.py in Maintenance/Idle, and maintenance_shared.py with `record_event` of events.py
-- in Maintenance/Shared. A call that may raise returns what it left in the database with a value or an
-- exception; `none` is an exception that leaves the call. The bodies that reach a provider
-- (`run_history_compaction`, `handle_session_summarize`, `run_memory_review`) are a parameter, a record
-- of three such calls, of which the theorems assume that they write no job. Maintenance/Lifecycle is
-- the abstract life of a job, Maintenance/Attempts counts the repair jobs of a target, and the other
-- modules are about the operations as steps of that life.
--
-- Mind is the organs of backend/app/mind. Mind/Focus is focus.py: Mind/Focus/Write has the actions that
-- write (set, shift, update, hold, defer, resolve, impossible) and Mind/Focus/Read the ones that read,
-- with `handle_focus`, over the organ repository storage/repository/organs.py in Storage/Focus and
-- Storage/Intentions. The validated body is a record, its validation a parameter; `none` is an
-- `AssertionError`. Ids and times come from a record of draws. A row that the session has loaded is
-- the row in the table, so the previous focus of a set is shown as it is once closed.
--
-- Mind/Modes is agent_modes.py, over the settings of storage/repository/runtime.py in Storage/Settings: the
-- preferred mode of a profile, and in Mind/Modes/Routing the routing of context blocks.
--
-- Base holds what they share: library names passed on, Boolean tests, lists measured by native
-- numbers, sets of texts, sorting, and JSON values. The modules called Samples and Examples hold
-- concrete data, and runs of the definitions on it.
--
-- Not modelled: the constant texts of reports and messages, which no code reads back; the deprecation
-- of test fixtures, which also rewrites the retrieval tables; the projection of events to clients; the
-- schemas of the module ports and the processes behind them; the other organs of backend/app/mind; the
-- routing of compactions in backend/app/runtime, and the thread that polls for due jobs; the providers, the HTTP routers,
-- the evaluations, the prompts and the frontend, which are I/O or text.
pub mod Base
pub mod Storage
pub mod Chronology
pub mod Modules
pub mod Maintenance
pub mod Mind
pub mod Provenance
pub mod Stream
