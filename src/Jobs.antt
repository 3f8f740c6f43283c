-- ===== src/Jobs.antt =====
-- internal/job: the asynchronous work.
pub mod Record
mod Examples
pub mod Queue
pub mod Hub
pub mod Store
pub mod Work
