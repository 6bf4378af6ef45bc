-- ===== src/Tests.antt =====
-- The theorems at concrete inputs, and runs of the model.
mod Engine
mod Stores
mod Stub
mod Bucket
mod Postgres
mod Passes
mod Packer
mod Records
mod Scores
mod Scheduler
