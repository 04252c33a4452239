-- ===== src/Examples.antt =====
-- Runs of the model on concrete inputs.
mod Wire
mod Pump
mod Ip
mod Access
mod Router
mod Destinations
mod Sessions
mod Templates
