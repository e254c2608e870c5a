-- ===== src/Controller/Cluster/Promise.antt =====
-- What a creation of the objects of a cluster promises: the objects that are there behind it.
pub mod Creation
pub mod Complete
pub mod Runs
pub mod Returns
use Prim.Native.String.{◌++◌}
use greatsql_operator.Api.Meta.{Key}
use greatsql_operator.Kube.Objects.{Kind, config_map, claim, secret, stateful_set, service}
use greatsql_operator.Controller.Cluster.{headless_name}
use greatsql_operator.Controller.Cluster.Order.{config_key, claim_key}

-- The objects of a cluster with one member.
abbrev pub AllThere : {W : Type 0} → (W → Kind → Key → Type 0) → Key → W → Type 0
AllThere Has req w =
    (((Has w secret (record req { name = req.name ++ "-secret" })
          × Has w config_map (config_key req 1))
        × Has w claim (claim_key req 1))
      × Has w stateful_set req)
    × Has w service (record req { name = headless_name req })
