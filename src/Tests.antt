-- ===== src/Tests.antt =====
-- Runs of the model at concrete inputs, and each theorem at an input that meets its hypotheses.
mod Placement
mod Merge
mod Publish
mod Pool
mod Schedule
mod Lock
mod Writers
mod Components
mod Idle
mod Teardown
mod Schema
mod Names
mod Keys
mod Alerts
mod Changed
