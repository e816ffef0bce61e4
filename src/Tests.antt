-- ===== src/Tests.antt =====
-- The theorems at concrete inputs.
mod Accounts
mod Certifying
mod Machine
mod Simulation
mod Members
mod Admission
mod Reconciling
mod Rotating
mod Storing
mod Serving
mod Starting
