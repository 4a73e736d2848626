-- ===== src/Tests.antt =====
-- Concrete runs, and the theorems at concrete inputs.
mod Memory
mod Commands
mod Images
mod Operations
mod Pools
mod Devices
mod Packets
mod Drivers
mod Jobs
mod Tables
mod Works
mod Scans
mod Catalogs
mod Turns
mod Provisions
mod Listings
mod StartConfs
