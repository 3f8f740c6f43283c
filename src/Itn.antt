-- ===== src/Itn.antt =====
-- internal/postproc/itn: spoken forms into written ones.
pub mod Numbers
pub mod Russian
pub mod Linked
pub mod Bounds
pub mod Runs
pub mod Spelling
pub mod Engine
pub mod Rewriting
mod Examples
