-- ===== src/Api.antt =====
-- api/v1: the custom resources, and the parts of the Kubernetes API types that the program reads and
-- writes. A value that the program only copies is carried as its serialised text.
pub mod Meta
pub mod Pod
pub mod Sections
pub mod Instance
pub mod Cluster
pub mod Affinity
pub mod Webhook
pub mod Memory
pub mod Scheme
