-- ===== src/Pages.antt =====
-- The pages of frontend/src/pages and the markup around the panels. Icons and decoration without
-- text are left out, and so are attributes other than the class.
pub mod View
pub mod Frame
pub mod Docs
pub mod Playground
pub mod Active
pub mod Samples
pub mod Home
pub mod Bar
pub mod Policies
pub mod Routes
pub mod Keys
pub mod Dashboard
pub mod Clicks
