-- ===== src/Tests.antt =====
-- The definitions run on concrete inputs, and the theorems applied at them.
mod Limiters
mod Memory
mod Replies
mod Dashboard
mod Loops
mod Gate
mod System
mod Backend
mod Tables
mod Service
mod Rows
mod Limited
mod Screens
