-- ===== src/Publication.antt =====
-- The publication of epochs: pipeline/epoch-publication-journal.ts.
pub mod Checks
pub mod Journal
pub mod Operations
pub mod Growth
pub mod Plans
pub mod Safe
pub mod Reach
pub mod Durable
pub mod Delivery
pub mod Delivered
pub mod Advanced
pub mod Tests
