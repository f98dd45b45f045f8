-- ===== src/Microservices.antt =====
-- The services of 63_microservices: one module for each of its internal packages.
pub mod Platform
pub mod Users
pub mod Orders
pub mod Gateway
mod Tests
