-- ===== src/Controller/Single/Promise.antt =====
-- What a reconciliation of a SingleInstance promises: the objects that are there when it has returned.
pub mod Update
pub mod Establish
pub mod Kept
pub mod Creation
pub mod Runs
pub mod Returns
use Prim.Native.String.{◌++◌}
use greatsql_operator.Consts
use greatsql_operator.Api.Meta.{Key}
use greatsql_operator.Kube.Objects.{Kind, config_map, claim, deployment, service}

-- The deployment, the service and the configuration of a request are there.
abbrev pub Established : {W : Type 0} → (W → Kind → Key → Type 0) → Key → W → Type 0
Established Has req w =
    Has w deployment req
    × Has w service req
    × Has w config_map (record req { name = req.name ++ "-config" })

-- The configuration and the claim that are created for a request are there.
abbrev pub Remains : {W : Type 0} → (W → Kind → Key → Type 0) → Key → W → Type 0
Remains Has req w =
    Has w config_map (record req { name = req.name ++ "-config" })
    × Has w claim (record req { name = req.name ++ Consts.db })
