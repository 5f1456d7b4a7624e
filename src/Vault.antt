-- ===== src/Vault.antt =====
-- pipeline/vault.ts: the class `EvidenceVault`, which keeps the records of issuance, their decisions, the
-- controls of their retention and the outbox of revocations.
pub mod Data
pub mod Blockers
pub mod Retention
pub mod Outbox
pub mod Decisions
pub mod Calls
pub mod Locking
pub mod Exclusive
pub mod Backup
pub mod Restored
pub mod Effects
pub mod Changes
pub mod Sound
pub mod Erasure
pub mod Kept
pub mod Blocking
pub mod Reports
pub mod Monitor
pub mod Calm
pub mod CalmTests
pub mod Tests
pub mod LockingTests
pub mod RestoreTests
