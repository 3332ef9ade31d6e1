-- ===== src/Tests.antt =====
-- Runs of the model on small inputs, and the theorems applied to them.
mod Tracker
mod Marks
mod Spans
mod Stores
mod Evictions
mod Openings
mod Streams
mod Torrents
mod Directories
mod Web
mod Records
mod Panics
mod Events
mod Diagnoses
mod Clients
mod Mappings
mod Polls
mod Endings
