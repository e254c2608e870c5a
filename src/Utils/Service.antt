-- ===== src/Utils/Service.antt =====
-- internal/utils/kube.go and id.go.
use Prim.Native.String.{◌++◌}
use text.Mathlib.Text.{◌==◌ as str_eq}
use greatsql_operator.Prelude.{
  ℕ, String, true, List, [], ◌∷◌, Outcome, ok, first, ◌>>=◌, ◌==◌, if◌then◌else◌,
}
use greatsql_operator.Prelude.Decimal.{print_ℤ}
use greatsql_operator.Api.Meta.{ObjectMeta, OwnerReference, GroupVersionKind}
use greatsql_operator.Kube.Objects.{Service}

-- `GetServiceAccessPoint`
unfoldable pub get_service_access_point : {E : Type 0} → Service → Outcome E String
get_service_access_point svc =
    if str_eq svc.type "ClusterIP"
    then (do port ← first svc.ports; ok (svc.cluster_ip ++ (":" ++ print_ℤ port.port)))
    else if str_eq svc.type "NodePort"
    then (do port ← first svc.ports; ok (svc.cluster_ip ++ (":" ++ print_ℤ port.node_port)))
    else if str_eq svc.type "LoadBalancer"
    then elim svc.ingress_ips [
      | [] ↦ ok ""
      | ip ∷ _ ↦ do port ← first svc.ports; ok (ip ++ (":" ++ print_ℤ port.port))
    ]
    else ok ""

-- `CreateOwnerReference`; `group_version_string` is `schema.GroupVersion.String`.
unfoldable pub create_owner_reference :
    (String → String → String) → ObjectMeta → GroupVersionKind → OwnerReference
create_owner_reference group_version_string owner gvk = record {
  api_version = group_version_string gvk.group gvk.version;
  kind = gvk.kind;
  name = owner.name;
  uid = owner.uid;
  controller = true;
  block_owner_deletion = true;
}

-- `GetUUIDWithoutDashes`, of the code points of a UUID.
unfoldable pub without_dashes : List ℕ → List ℕ
without_dashes [] = []
without_dashes (c ∷ s) = let rest = without_dashes s in if c == b'-' then rest else c ∷ rest

-- `GetUUID`; `new_uuid` is `uuid.New().String()`, and draws on the world.
abbrev pub get_uuid : {W : Type 0} → (W → String × W) → W → String × W
get_uuid new_uuid w = new_uuid w
