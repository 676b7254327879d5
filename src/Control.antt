-- ===== src/Control.antt =====
-- The control plane of include/eavp/control and src/control.
pub mod Reconciler
pub mod StateStore
