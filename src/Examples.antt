-- ===== src/Examples.antt =====
-- Concrete heaps, tables, clocks and buffers, and the theorems applied to them.
mod Allocator
mod Devices
mod Lines
mod Names
mod Keys
mod Waits
mod Readers
mod Scripts
