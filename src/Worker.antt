-- ===== src/Worker.antt =====
-- worker/: the jobs of the relay worker and the store that persists them.
pub mod Job
pub mod Store
pub mod Relay
pub mod Pool
pub mod Recovery
pub mod Retry
pub mod SourceScan
pub mod Tests
