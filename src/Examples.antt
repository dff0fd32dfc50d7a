-- ===== src/Examples.antt =====
-- Concrete runs of the definitions, and the theorems at concrete inputs.
mod Intervals
mod Verdicts
mod Conditions
mod Contracts
mod Merges
mod Sidecars
mod Graphs
mod Summaries
mod Digests
mod Baselines
mod Disjuncts
