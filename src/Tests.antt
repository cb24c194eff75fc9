-- ===== src/Tests.antt =====
-- Runs on concrete input: each applies a theorem to a server and a cluster that answer so that its
-- hypotheses hold.
mod Leases
mod Ledger
mod Runs
mod Exclusive
mod World
mod Addresses
mod Claims
mod Reconcilers
mod Rules
mod Twice
mod Dropped
mod Owners
mod Setup
mod Webhooks
