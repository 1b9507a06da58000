-- ===== src/Lib.antt =====
-- A model of Bollywood HAL 9000: the exact store of the machine self, the ledgers that stand on it,
-- the intake of observations before it, the choice of a model, the cutting of spoken answers, and the
-- state machines of the desktop.
--
-- The parts, and the file that models each:
-- - Action: what a call returns. A Python exception is a value; an operation of a stateful object is
--   a function from its state to a result and the state that it leaves.
-- - Storage: `SentienceDatabase` of src/hal9000/sentience/storage/database.py. `Storage.Envelope` is
--   `EventEnvelope` and its validation, `Storage.Rows` the table exact_events, `Storage.Exact` the
--   transaction of `append_exact_event` (with the projection that changes the other tables in it),
--   `Storage.Verify` the verifications of the hash chain and of the sequence. `Storage.Table` has the
--   SQL statements that the ledgers use, on lists of rows.
-- - Sentience: the ledgers. `Sentience.Tables` has the rows of their tables (the migrations under
--   src/hal9000/sentience/storage/migrations), `Sentience.Runtime` what a ledger is built with.
--   `Sentience.Impact` is capabilities/task_impact.py and degradation/severity.py,
--   `Sentience.Episodes` degradation/episodes.py, and `Sentience.Degradation` the engine of
--   degradation/engine.py: `Steps` has its transactions, `Projections` the updates in them,
--   `Operations` the calls `on_transition` and `tick`, `Change` the moves that these make as a
--   step relation on the tables, `Timing` what a tick waits for, `Losses` what a transition does,
--   `Life` what any sequence of calls can reach beside the dispatcher and the clients of
--   `Life.Others`. `Sentience.Capabilities` is capabilities/registry.py (its reads, with the
--   writes in `Registry` and `Requirements`, and `install_defaults` and `list_current` in
--   `Defaults`) and capabilities/tasks.py (`Tasks`), `Sentience.Lease` identity/lease.py,
--   `Sentience.Outbox` degradation/outbox.py, and `Sentience.Actions` capabilities/actions.py
--   (`Calls` has its operations).
-- - Ingestion: the way of an observation to the store. `Ingestion.Bus` is `BoundedEventBus` of
--   src/hal9000/sentience/event_bus.py (`Drops` has its counters, `Events` the events that it makes),
--   `Ingestion.Writer` the queue of exact events of storage/writer.py, to which the bus and the ledgers
--   submit, `Ingestion.Coalescer` events/coalescer.py (`Runs` has `add`, `flush` and `close`),
--   `Ingestion.Sampler` the samples that a run keeps (sketches/sampling.py), and `Ingestion.Routing`
--   events/routing.py.
-- - Retrieval: `TokenBudget` of src/hal9000/sentience/retrieval/token_budget.py.
-- - Hermes: `TaskAwareModelRouter` of src/hal9000/hermes/router.py.
-- - Speech: `SpeechChunker` of src/hal9000/speech/text.py (`Chunker` has the search of a boundary,
--   `Chunker.Feed` the loop of `feed`).
-- - Desktop: `HalStateMachine` of src/hal9000/state.py, and the clicks on the speaker grille of
--   src/hal9000/clicks.py.
-- - Prelude: shared names and helpers. Examples: concrete inputs.
--
-- How state corresponds: a store is a record of its events, SQLite's last sequence number and the
-- other tables; a ledger's operation is one append whose projection is a function on the tables
-- that may raise. The clocks are read once in an operation and the UUIDs that it draws are
-- arguments. A timestamp column is the millisecond that its fixed-width text names. Threads are
-- steps that a list gives in their order; an operation is one step, and what another thread may do
-- between its reads and its transaction is not modelled. The loops are recursions on a list, but
-- `feed` of the chunker, which runs on fuel: the length of its text, and each turn that goes on
-- takes a character at least.
--
-- Parameters: `Platform` has what Python's libraries decide about a field of an envelope, `Codec` the
-- JSON text, the redaction of payloads and the digest; the redaction of texts is `clean` of the
-- capability registry, and the callables of `dispatch_one` are its arguments. `Normalizer` has the fingerprint, the redaction
-- and the JSON text of an observation, `SampleRate` and `RouterSettings` the comparisons of floats,
-- `Utf8` and `Chars` what Python decides about texts. A theorem that needs a digest without collisions
-- says so.
--
-- Not modelled: what SQLite does below a transaction (files, pragmas, threads that wait for the write
-- lock), Qt's event loop, the redaction of texts and payloads, and the parts of the repository that
-- are calls of other libraries or that no file here takes up (the other clients of the store, the
-- connection to Hermes, audio and the speech engines); of the event bus, the threads with `start`,
-- `flush` and `close`.
pub mod Action
pub mod Desktop
pub mod Examples
pub mod Hermes
pub mod Ingestion
pub mod Prelude
pub mod Retrieval
pub mod Sentience
pub mod Speech
pub mod Storage
