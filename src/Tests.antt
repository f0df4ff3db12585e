-- ===== src/Tests.antt =====
-- Concrete inputs: a small platform, and the theorems at it.
mod Toy
mod Datagrams
mod Commands
mod Nodes
mod Drivers
mod Sectors
mod Writers
mod Layouts
mod Starts
mod Recoveries
mod Stream
