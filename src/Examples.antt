-- ===== src/Examples.antt =====
-- The theorems applied to concrete values, and runs of the modelled code.
mod Invoices
mod Merges
mod Anchoring
mod Building
mod Indexing
mod Inheritance
mod Checks
mod States
mod StateReads
mod Stashing
