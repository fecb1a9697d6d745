-- ===== src/Examples.antt =====
-- Runs of the definitions on concrete input.
mod Leases
mod Parts
mod Data
mod Net
mod Ring
mod Nodes
mod Machine
mod Offers
