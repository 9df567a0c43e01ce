-- ===== src/Tests.antt =====
-- Concrete worlds of the proxy, and the theorems of the other modules at them.
mod Demo
mod Cases
mod LineCases
mod TlsCases
mod Runs
mod PoolCases
mod LinkCases
mod MoveCases
