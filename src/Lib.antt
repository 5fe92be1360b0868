-- ===== src/Lib.antt =====
-- A model of the core of Apanel, an indicator monitor for the A-share market: indicator snapshots
-- become states, states and values meet alert rules, and rules that fire put rows in the
-- notification outbox.
--
-- Base holds what the parts share: results with exceptions (Outcome), Python's equality on keys
-- (Eq), strings as lists of code points (Texts), dictionaries as association lists (Dict), and the
-- finite numbers (Number, an interface that Integers fills for the tests).
--
-- States is backend/app/states. Values and Snapshot are types.py: `finite_float`, `from_mapping`,
-- `make_snapshot`. Signals, Evaluators and Definitions are definitions.py: the readings, one
-- function per evaluator, and the table of the built-in states. Registry is registry.py. Engine is
-- engine.py: an engine is a dictionary from keys to bits, and `evaluate_state` returns the result
-- with the engine after it. Pass is `evaluate`, one pass over several states;
-- Crossing, Edges, Codes, Listed, Reads and Alone hold proofs.
--
-- Alerts is backend/app/alerts. Rules and Observations are models.py, Evaluator is evaluator.py;
-- Trigger, Conditions and Payloads hold proofs. Alerts.Service is the part of
-- backend/app/services/alert_service.py and backend/app/services/alert_replay.py that evaluates one
-- stored rule: Records has the rows of backend/app/models that it reads and writes, Replay is
-- `catch_up`, Evaluation is `_evaluate_rule` and `_unavailable_observation`; Keeps, Sequence, Enters,
-- Reaches and Repeats hold proofs. An evaluation is a function from the store to the store or to an
-- exception, in which case nothing is committed.
--
-- Timeline is `publish` and `seed_at` of backend/app/repositories/state_event.py, on the rows of one
-- analysis stream: Records has the rows, Loop the loop over the ordered observations, Publish the
-- rest of the call; Replay and Numbers hold proofs. Its events are what Alerts.Service replays.
--
-- Outbox is backend/app/services/notification_service.py for one row: Records has the row and the
-- surroundings of a call, Delivery is `_deliver_existing` and `_commit_delivery`, Calls is `enqueue`,
-- `dispatch`, `retry` and the condition of the scan, Scan also `summarize_deliveries`; Commit, Once
-- and Budget hold proofs. What the provider did, and whether each commit took effect, are data of the
-- call. A `send` that raised, a timeout included, may have reached the provider. An error message goes
-- with its code. A history is the calls in the order of the row's lock.
--
-- Auth is backend/app/services/auth_service.py on its tables: Records has the rows and what a call
-- draws from outside, Sessions the calls on refresh sessions, Accounts those on invitations and
-- accounts. Steps has the calls in any order, as a relation; Changes, Edits and Registering say what a
-- call does to each table; Families, Tokens, Reuse, Replay, Sound, Chain, Refines, Identifiers and
-- Invitations hold proofs. A call is a transaction, which returns its result with the tables after it;
-- the advisory locks appear as the order of the calls.
--
-- Locks is backend/app/tasks/locks.py: Client is the Redis client as an interface with the laws of the
-- commands, Lock the instances with their calls, each of which can fail before or after its command
-- took effect; Keeps and Exclusive hold proofs. Keys do not run out within a run; a lease that ran out
-- is a store without the key.
--
-- Hub is market-data-hub/app/domain/deduplication.py: Facts is `unique_facts`; Orders and Members
-- hold proofs.
--
-- Sync is market-data-hub/app/services/sync.py: Failures has the exceptions and the results, Fetching is
-- `_fetch_with_invalid_symbol_isolation`, Persisting `_persist_with_isolation`, Symbols
-- `_canonicalize_symbols`, Quotes and QuoteSync `QuoteSyncService.sync`, and Securities
-- `SecuritySyncService.sync`; Atomic and the other modules hold proofs. A provider and a repository
-- are calls on one world, each of which returns or raises, and leaves the world that the next one meets.
--
-- Monitor is `ensure_monitor_capacity` of backend/app/services/analysis_control.py with the calls that it
-- guards: `add_stock` and `remove_stock` of backend/app/services/watch_table_service.py, and `create`,
-- `update` and `delete` of backend/app/services/alert_service.py as far as the target of the rule goes.
-- Capacity has the calls, Steps the calls in any order; Counting and Limits hold proofs. Columns is
-- `_move_column` and the positions in `add_column`, with its proofs. The account
-- lock appears as the order of the calls.
--
-- Streams is the row of `analysis_streams` that the hub and the backend share, with the bars that it
-- guards: Bars and Fences are `SqlAlchemyDailyBarRepository` of
-- market-data-hub/app/repositories/market_data.py, Records has `invalidate_changed` of
-- market-data-hub/app/repositories/analysis_stream.py, and Publication is
-- backend/app/services/analysis_control.py and `AnalysisService.materialize` of
-- backend/app/services/analysis_service.py. Steps and Fenced have the transactions of both programs in
-- any order, as relations; Written, Sound, Kept, Published, Rising, Committed and Superseded hold
-- proofs. The calculators of backend/app/indicators with the first part of
-- `IndicatorService._materialize` of backend/app/services/indicator_service.py are the argument
-- Indicators; which snapshots that call deletes and writes is `rebuild_history`. B is a bar that the
-- class `Candle` accepts, with a high and a low; a call that raises commits nothing, so it is no step.
-- The snapshots are without the revision in `_source`. What a publication asks for the states is a
-- record of the call: what it computes depends on the stored trading calendar too.
--
-- Correspondence. A float is an element of an abstract ordered type with subtraction, division and
-- absolute value, of which only the laws of Number are assumed; what is not finite is a separate
-- value that the source rejects. Upper and lower case are those of ASCII, and a blank is an ASCII
-- blank. A read-only view of a mapping is the mapping. Days are numbered, so the day after n is
-- n + 1. A snapshot row has the value of the rule's field, if the source can read one from it. The
-- calls of one evaluation are not interleaved with another: the source holds the rule's row lock.
-- A stored rule's state code is one that the registry knows.
-- Two recursions use fuel: the depth of calls of the isolation, for which the number of symbols is
-- enough, and the number of chunks of a list, for which its length is. Every other loop is over a list.
--
-- Not modelled: the conditions of a rule that is created or edited, the rest of the columns of a
-- watch table, the read queries of the state timeline, access tokens, the calculators of the indicators
-- (floating-point series), the states that a publication derives from them, the synchronization of daily
-- bars and dividends, the providers and the other repositories of the market data hub, the HTTP layers
-- and the frontend.
pub mod Auth
pub mod Base
pub mod States
pub mod Timeline
pub mod Hub
pub mod Sync
pub mod Monitor
pub mod Streams
pub mod Locks
pub mod Outbox
pub mod Alerts
