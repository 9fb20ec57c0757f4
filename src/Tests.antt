-- ===== src/Tests.antt =====
-- Runs of the theorems on concrete states: each lemma here applies one theorem to all its arguments.
mod Paging
mod Blocks
mod Holes
mod Drivers
mod Tables
mod Containers
mod Files
mod Drives
mod Waits
mod Disks
mod Screen
mod Devices
mod Keyboards
