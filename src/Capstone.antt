-- ===== src/Capstone.antt =====
-- The task service of 47_capstone: its store, its HTTP handlers and its middleware.
pub mod Store
pub mod Api
pub mod Config
mod Tests
