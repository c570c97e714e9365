-- ===== src/Tests.antt =====
-- The properties at concrete inputs, and runs of the code that can be followed in the source.
mod Store
mod Rules
mod Capability
mod Tables
mod Feed
mod Stamps
mod Deltas
mod Media
mod Gate
mod Rooms
mod Joins
mod Rounds
mod Documents
mod Batches
mod Positions
mod Viewers
mod Beats
