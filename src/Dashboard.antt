-- ===== src/Dashboard.antt =====
-- server-dashboard/backend: the registry of reports, the hub that fans them out, and the API between.
pub mod Hub
pub mod Registry
mod Tests
