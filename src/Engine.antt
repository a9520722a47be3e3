-- ===== src/Engine.antt =====
-- internal/engine: the execution of one task.
pub mod Watermark
pub mod Batch
pub mod Page
pub mod Run
pub mod Connected
pub mod Faithful
pub mod Openers
