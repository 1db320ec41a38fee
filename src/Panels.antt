-- ===== src/Panels.antt =====
-- The panels of frontend/src/components: their own state, their forms, their searches and tables.
pub mod Search
pub mod Policies
pub mod Routes
pub mod Tester
pub mod Keys
pub mod Shell
