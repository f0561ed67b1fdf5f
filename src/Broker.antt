-- ===== src/Broker.antt =====
-- The in-process publishers of archive/python-legacy/backend/app/api: stream_notifier.py (`Stream`)
-- and tick_notifier.py (`Tick`), over the queues and the subscriber table that both use.
pub mod Queue
pub mod Registry
pub mod Stream
pub mod Tick
