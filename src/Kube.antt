-- ===== src/Kube.antt =====
-- internal/pkg/kube: the Kubernetes objects that the operator builds, and the API server.
pub mod Objects
pub mod Platform
pub mod Trace
pub mod Pods
pub mod Informers
pub mod Answers
pub mod Builders
pub mod Ensures
pub mod Keeps
pub mod Sends
pub mod Presence
