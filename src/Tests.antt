-- ===== src/Tests.antt =====
-- Runs on concrete inputs, and the theorems at concrete inputs.
mod Streams
mod Heaps
mod Layouts
mod Tables
mod Records
mod Unabbrevs
mod Machines
