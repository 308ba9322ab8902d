-- ===== src/Tests.antt =====
-- Concrete inputs for the theorems.
mod Paging
mod Memory
mod Frames
mod Tasks
mod Calls
mod Ipc
mod Devices
mod Kernel
mod Ports
mod Elf
mod Boot
mod Lapic
