-- ===== src/Tests.antt =====
-- The theorems on concrete inputs, and runs of the definitions.
mod Codec
mod Storage
mod Log
mod Series
mod Aggregate
mod Windows
mod Reopened
mod Retention
