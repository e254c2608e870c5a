-- ===== src/Controller.antt =====
-- internal/controller: the two reconcilers.
pub mod Single
pub mod Cluster
pub mod Setup
