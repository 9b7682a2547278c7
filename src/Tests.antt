-- ===== src/Tests.antt =====
-- Runs of the model on a small node, and the theorems at concrete data.
mod Node
mod Chain
mod Blocks
mod Service
mod Command
mod Sources
mod Healthy
mod Growing
mod Ledgers
mod Options
mod Derive
mod Calls
mod Router
