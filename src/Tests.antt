-- ===== src/Tests.antt =====
-- The theorems at concrete inputs, and small runs of the definitions.
mod Runs
mod Advances
mod Resumes
mod Locks
mod Leases
mod Log
mod Loads
mod Rows
mod Settings
mod Pages
mod Commands
mod Counters
