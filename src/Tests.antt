-- ===== src/Tests.antt =====
-- Runs of the definitions on concrete inputs, and uses of the theorems there.
mod Stores
mod Traces
mod Sources
mod Snapshots
mod Chunks
mod MemTree
mod Trees
mod Scans
