-- ===== src/Kube/Builders.antt =====
-- internal/pkg/kube: deployment.go, statefulset.go, service.go, secret.go, volume.go, configmap.go.
pub mod Workloads
pub mod Plain
pub mod Names
pub mod Secrets
pub mod StatefulSets
