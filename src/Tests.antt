-- ===== src/Tests.antt =====
-- The theorems at concrete inputs, and runs of the code.
mod Data
mod Configs
mod Desks
mod Streams
mod Bridges
mod Systems
mod Runs
mod Lines
mod Commands
