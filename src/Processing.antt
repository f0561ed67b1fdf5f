-- ===== src/Processing.antt =====
-- archive/python-legacy/backend/app/processing: the metrics that are computed from the option chain
-- and from the trade tape, the session clock, and the alert rules.
pub mod LeeReady
pub mod OpenPrices
pub mod Session
pub mod VolumeProfile
pub mod AlertPipeline
pub mod Alerts
pub mod Json
pub mod Basis
pub mod Calendar
pub mod Walls
pub mod FlowEvents
pub mod MaxPain
