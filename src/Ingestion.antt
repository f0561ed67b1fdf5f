-- ===== src/Ingestion.antt =====
-- archive/python-legacy/backend/app/ingestion: the dead-letter queue (dlq.py) and the choice of API
-- keys (key_pool.py), the writer of option rows (writer.py), and the live feed (databento_live.py): its
-- records, and its reconnections.
pub mod Dlq
pub mod KeyPool
pub mod Writer
pub mod Live
pub mod Reconnect
