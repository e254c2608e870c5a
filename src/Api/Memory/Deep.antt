-- ===== src/Api/Memory/Deep.antt =====
-- Every generated copy is deep.
pub mod Pods
pub mod Sections
pub mod Clusters
pub mod Instances
