-- ===== src/Tests.antt =====
-- Sample inputs, runs of the definitions on them and the theorems applied to them.
mod Samples
mod Verifiers
mod Policies
mod Servers
mod Pipelines
mod Graphs
mod Gatings
mod Services
mod Listings
mod Orderings
mod Templates
