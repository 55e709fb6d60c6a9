-- ===== src/Tests.antt =====
-- Runs on concrete data, and the theorems at concrete inputs.
mod Toy
mod Wire
mod Keys
mod Machines
mod Runs
mod Files
mod Commands
mod Refused
mod Exchange
mod Locked
mod Handles
mod Touch
mod Slot
mod Announced
mod Kept
mod Private
mod Edited
mod Sealed
mod Strict
mod Tries
