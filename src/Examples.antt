-- ===== src/Examples.antt =====
-- The theorems at concrete inputs.
mod Containers
mod Crcs
mod Powers
mod Files
mod Deleters
mod Memories
mod Pools
mod Rings
mod Times
mod Texts
mod Lists
mod Runs
mod Transfers
mod Checksums
