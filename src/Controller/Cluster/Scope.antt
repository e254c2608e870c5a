-- ===== src/Controller/Cluster/Scope.antt =====
-- Which requests a reconciliation of a GroupReplicationCluster sends.
pub mod Creation
pub mod Reconcile
use Prim.Native.String.{◌++◌}
use greatsql_operator.Prelude.{ℕ, ◌≡◌}
use greatsql_operator.Prelude.Decimal.{print}
use greatsql_operator.Consts
use greatsql_operator.Api.Meta.{Key}
use greatsql_operator.Kube.Objects.{
  Kind, Obj, meta_of, key_of, config_map, claim, secret, deployment, stateful_set, service,
  instance_kind, cluster_kind,
}
use greatsql_operator.Kube.Platform.{Platform}
use greatsql_operator.Kube.Trace.{
  Call, get_call, create_call, update_call, delete_call, status_call,
}
use greatsql_operator.Controller.Cluster.{config_map_name, headless_name}

-- The objects that are made for a cluster, at any ordinal.
abbrev pub Made : Key → Kind → Key → Type 0
Made req config_map key = (i : ℕ) × (key ≡ record req { name = config_map_name req i })
Made req claim key =
    (i : ℕ) × (key ≡ record req { name = req.name ++ ("-" ++ (Consts.db ++ ("-" ++ print i))) })
Made req secret key = key ≡ record req { name = req.name ++ "-secret" }
Made req stateful_set key = key ≡ req
Made req service key = key ≡ record req { name = headless_name req }
Made req deployment key = ⊥
Made req instance_kind key = ⊥
Made req cluster_kind key = ⊥

-- What is looked up.
abbrev pub Read : Key → Kind → Key → Type 0
Read req cluster_kind key = key ≡ req
Read req stateful_set key = key ≡ req
Read req config_map key = (i : ℕ) × (key ≡ record req { name = config_map_name req i })
Read req claim key = ⊥
Read req secret key = ⊥
Read req service key = ⊥
Read req deployment key = ⊥
Read req instance_kind key = ⊥

-- Look-ups and creations of the objects of the cluster, and nothing else.
abbrev pub OnlyCreates : Key → Call → Type 0
OnlyCreates req (get_call k key) = Read req k key
OnlyCreates req (create_call k key) = Made req k key
OnlyCreates req (update_call k key) = ⊥
OnlyCreates req (delete_call k key) = ⊥
OnlyCreates req (status_call k key) = ⊥

-- A fact about the world that the look-ups and the creations of a cluster keep, whatever the answer.
pub record KeptByCreates {W : Type 0} (p : Platform W) (req : Key) (I : W → Type 0) : Type 0 where
  pub under_get : (k : Kind) (key : Key) → Read req k key → (w : W) → I w → I (p.get k key w).1
  pub under_create :
      (k : Kind) (o : Obj k)
      → Made req k (key_of (meta_of k o))
      → (w : W) → I w
      → I (p.create k o w).1
  pub under_uuid : (w : W) → I w → I (p.new_uuid w).1
