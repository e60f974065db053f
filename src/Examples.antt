-- ===== src/Examples.antt =====
-- The theorems at concrete inputs.
mod World
mod Codes
mod Store
mod Recovery
mod Consensus
mod Restarts
mod Merges
mod Messages
mod Texts
mod Sorted
mod Requests
mod Threads
