-- ===== src/Management.antt =====
-- The management plane of include/eavp/management and src/management.
pub mod Health
pub mod Metrics
mod Tests
