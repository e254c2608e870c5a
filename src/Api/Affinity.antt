-- ===== src/Api/Affinity.antt =====
-- `SetPodAffinity` of api/v1/common_types.go and its two callers.
use greatsql_operator.Prelude.{String, Option, none, some, List, [], ◌∷◌, deref, Outcome, ok, ◌>>=◌}
use greatsql_operator.Api.Meta.{StringMap}
use greatsql_operator.Api.Instance.{SingleInstance, SingleInstanceSpec}
use greatsql_operator.Api.Cluster.{GroupReplicationCluster, GroupReplicationClusterSpec}

-- The values that an `interface{}` parameter is given in the program, and the two that are looked for.
pub data SpecValue : Type 0 where
  instance_value : SingleInstance → SpecValue
  cluster_value : GroupReplicationCluster → SpecValue
  instance_spec : SingleInstanceSpec → SpecValue
  cluster_spec : GroupReplicationClusterSpec → SpecValue

pub record PodAffinityTerm : Type 0 where
  pub match_labels : StringMap
  pub topology_key : String

pub record NodeSelectorRequirement : Type 0 where
  pub key : String
  pub operator : String
  pub values : List String

-- corev1.Affinity, with the three lists that the program fills.
pub record Affinity : Type 0 where
  pub pod_affinity : List PodAffinityTerm
  pub pod_anti_affinity : List PodAffinityTerm
  pub node_affinity : List NodeSelectorRequirement

-- The affinity for a topology key; none for a nil key.
affinity_for : Option String → StringMap → Option Affinity
affinity_for none labels = none
affinity_for (some key) labels =
    let term : PodAffinityTerm = record { match_labels = labels; topology_key = key } in
    some (record {
      pod_affinity = term ∷ [];
      pod_anti_affinity = term ∷ [];
      node_affinity = record { key = key; operator = "NotIn"; values = "" ∷ [] } ∷ [];
    })

-- `SetPodAffinity`: the switch is on the type of the value that the interface holds.
pub set_pod_affinity : {E : Type 0} → SpecValue → StringMap → Outcome E (Option Affinity)
unfolding affinity_for
set_pod_affinity (instance_value s) labels = do
  affinity ← deref s.spec.pod_spec.affinity
  ok (affinity_for affinity.topology_key labels)
set_pod_affinity (cluster_value s) labels = do
  cluster ← deref s.spec.cluster_spec
  pod ← deref cluster.pod_spec
  affinity ← deref pod.affinity
  ok (affinity_for affinity.topology_key labels)
set_pod_affinity (instance_spec _) labels = ok none
set_pod_affinity (cluster_spec _) labels = ok none

-- `(s *SingleInstance) PodAffinity` and `(s *GroupReplicationCluster) PodAffinity`: both hand over the
-- spec, and not the resource that the switch looks for.
unfoldable pub instance_pod_affinity :
    {E : Type 0} → SingleInstance → StringMap → Outcome E (Option Affinity)
unfolding set_pod_affinity
instance_pod_affinity s labels = set_pod_affinity (instance_spec s.spec) labels

unfoldable pub cluster_pod_affinity :
    {E : Type 0} → GroupReplicationCluster → StringMap → Outcome E (Option Affinity)
unfolding set_pod_affinity
cluster_pod_affinity s labels = set_pod_affinity (cluster_spec s.spec) labels
