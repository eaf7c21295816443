-- ===== src/Tests.antt =====
-- Concrete tables and packets, with one module for each kind of table.
mod Linux
mod Arp
mod Nbr
mod Fwd
mod Bspc
mod Layer
mod Runs
mod Air
mod Init
mod Joining
mod Answer
mod Adverts
mod Reports
mod FromInit
mod Routes
