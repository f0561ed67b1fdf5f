-- ===== src/Lib.antt =====
-- A verification library for FlowGreeks, a service that ingests the trades and quotes of US index
-- options and futures, computes dealer-positioning indicators, and streams snapshots to its clients.
-- It models the Python services under archive/python-legacy/backend/app, file by file.
--
-- Api          api/deps.py, core/security.py and endpoints/ of api: Admin has the admin tokens with
--              their denylist, ApiKeys the check of API keys, KeyCrud their administration, Limits
--              the rate limiter, Streaming the guards of the live streams, and in Opening
--              their first messages, which Stream of Broker replays. KeyCrud writes the table
--              that ApiKeys and Streaming read; the watcher of Streaming follows its changes. Usage
--              is the flush of the uses that ApiKeys counts, Middleware what main.py puts around
--              every request: the limit on bodies and the security headers.
-- Broker       api/stream_notifier.py and api/tick_notifier.py. Registry is the table of subscribers
--              that both keep, Queue the bounded queues and buffers of Python's library, Stream the
--              numbered snapshots with the replay buffer, Tick the futures prices. `publish` of the
--              pipeline feeds Stream, that of the futures ingester feeds Tick.
-- Ingestion    ingestion/dlq.py, the dead-letter queue behind every ingester, and
--              ingestion/key_pool.py, the keys that an ingester tries one after the other.
--              Writer is ingestion/writer.py: Merge, Table and Upsert are about a flush, Steps,
--              Backpressure, Accounting and Bulk about the calls that fill and empty the buffer.
--              Live is ingestion/databento_live.py: Handlers and Dispatch have its records, Refresh
--              the registry of contracts; what it hands to the writers is a list of rows. Reconnect
--              is its loop over attempts, with the keys that KeyPool offers.
-- Processing   the calculators processing/max_pain.py, processing/lee_ready.py,
--              processing/volume_profile.py and processing/basis.py, and the session clock
--              processing/session.py, with its tables in Calendar, which the schedulers and the
--              calculators share.
--              processing/alerts.py evaluates the alert rules, which are JSON trees (Json; Fires has
--              the conditions that they write), and
--              processing/alert_pipeline.py runs them (AlertPipeline, for any evaluator).
--              Walls is processing/walls.py, the strikes with the most weight.
--              FlowEvents is processing/flow_events.py: the tape, and in Detect the detectors.
--              OpenPrices is the registry of opening prices of processing/move_tracker.py.
-- Examples     runs of the code and the theorems at concrete inputs.
-- Prelude      Boolean tests, lists measured by native numbers, texts as keys, dictionaries.
--
-- A method becomes a function from the object's state to the new state and the result. A coroutine
-- that suspends, such as a flush, is a step before and a step after. Queues and events that several
-- parties share are numbers. PyJWT, bcrypt and BLAKE2b are interfaces with the laws that the code
-- relies on. Prices, strikes, pains and times are whole numbers
-- of a small unit (nanodollars, thousandths of a dollar, microseconds), so the arithmetic is exact:
-- the rounding of floating-point numbers is not modelled. Every loop is structural recursion, but
-- for the search of the next business day and the widening of the value area, whose fuel (seven
-- days, the number of bins) is proved to be enough, and the loop of reconnections, which recurs on the
-- list of what the attempts meet and is proved to end. What pandas, the database and the clock do is an
-- argument.
--
-- Not modelled: the option pricing with exp, log and the normal distribution, the vendor's clients but
-- for that of live options, SQL, the read-only HTTP handlers, the schedulers, the tasks
-- that a live stream runs once it is open and the streams over server-sent events, and the Go and TypeScript parts of the
-- repository.
pub mod Examples
pub mod Prelude
pub mod Api
pub mod Broker
pub mod Ingestion
pub mod Processing
