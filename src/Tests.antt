-- ===== src/Tests.antt =====
-- The tests: concrete libraries for the parameters, and runs of the model on them.
mod Json
mod Libraries
mod Server
mod Broker
mod Worker
mod Pool
mod Values
mod Revival
mod Version
mod Heartbeat
mod Settings
mod Loop
mod Histories
mod Loading
mod Cli
mod Metrics
