-- ===== src/Examples.antt =====
-- The theorems at concrete inputs, and runs of the code.
mod AlertRules
mod AlertTrees
mod Brokers
mod Days
mod DeadLetters
mod Feed
mod Footprint
mod Keys
mod Opens
mod Outages
mod Pains
mod Trades
mod Tokens
mod ApiKeyUse
mod Requests
mod Sockets
mod Writes
mod Prints
mod Chains
