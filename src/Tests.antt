-- ===== src/Tests.antt =====
-- Concrete runs of the modelled functions, and the theorems at concrete inputs.
mod Trees
mod Names
mod Buffers
mod Links
mod Rounds
mod Requests
mod Arrays
mod Revisions
mod Blocks
mod Attributes
mod Protocol
mod Reads
mod Statuses
mod Directories
mod Lookups
mod Writes
mod Diffs
