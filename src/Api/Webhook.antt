-- ===== src/Api/Webhook.antt =====
-- api/v1/groupreplicationcluster_webhook.go: the defaulting and validating webhook.
pub mod Defaults
use greatsql_operator.Prelude.{
  ℕ, zero, suc, ◌+◌, ◌-◌, ◌^◌, String, ◌≡◌, refl, Bool, Option, none, some, List, [], ◌∷◌, ltb,
  ◌==◌, if◌then◌else◌,
}
use greatsql_operator.Prelude.Int.{ℤ, pos, negsuc, ltb_ℤ}
use greatsql_operator.Kube.Objects.{Kind, cluster_kind}
use greatsql_operator.Api.Cluster.{
  Member, GroupReplicationCluster, GroupReplicationClusterSpec, get_size,
}

-- `x += 1` on an `int32`, which wraps around.
unfoldable pub increment32 : ℤ → ℤ
increment32 (pos n) = if n == 2 ^ 31 - 1 then negsuc (2 ^ 31 - 1) else pos (n + 1)
increment32 (negsuc zero) = pos 0
increment32 (negsuc (suc n)) = negsuc n

-- A size that is not set becomes 3.
unfoldable pub grown : Option ℤ → ℤ
unfolding increment32
grown none = pos 3
grown (some n) = increment32 n

-- The members, by the test `len(r.Spec.Member) > 1`; the other branch only logs.
unfoldable pub default_members : List Member → List Member
unfolding get_size grown
default_members (first ∷ second ∷ rest) =
    if ltb_ℤ (get_size first) (pos 3)
    then first ∷ record second { size = some (grown second.size) } ∷ rest
    else first ∷ second ∷ rest
default_members ms = ms

-- `Default`
unfoldable pub default : GroupReplicationCluster → GroupReplicationCluster
unfolding default_members
default r = record r { spec = record r.spec { member = default_members r.spec.member } }

-- The warnings and the error of an admission check.
abbrev pub Admission : Type 0
Admission = List String × Option String

-- `ValidateCreate`, `ValidateUpdate` and `ValidateDelete` accept every object.
unfoldable pub validate_create : GroupReplicationCluster → Admission
validate_create r = ([], none)

unfoldable pub validate_update : GroupReplicationCluster → GroupReplicationCluster → Admission
validate_update r old = ([], none)

unfoldable pub validate_delete : GroupReplicationCluster → Admission
validate_delete r = ([], none)

-- `SetupWebhookWithManager`; `complete` is `Complete` of the builder, which is told the kind.
abbrev pub setup_webhook : {W : Type 0} → (Kind → W → Option String × W) → W → Option String × W
setup_webhook complete = complete cluster_kind
