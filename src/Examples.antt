-- ===== src/Examples.antt =====
-- Tests: the theorems at concrete values, with the third-party code of Deps/Assoc.antt.
mod Sections
mod Checks
mod Systems
mod Sites
mod Clusters
mod Machines
mod Ofeds
mod Connections
mod Inventory
