-- ===== src/Api/Scheme.antt =====
-- api/v1/groupversion_info.go and the `init` functions of api/v1: the types that are registered.
use greatsql_operator.Prelude.{String, List, [], ◌∷◌}
use greatsql_operator.Consts
use greatsql_operator.Api.Meta.{GroupVersionKind}

abbrev of_group_version : List String → List GroupVersionKind
of_group_version [] = []
of_group_version (kind ∷ kinds) =
    record { group = Consts.greatsql_group; version = Consts.greatsql_version; kind = kind }
    ∷ of_group_version kinds

-- `init` of groupreplicationcluster_types.go
unfoldable pub cluster_types : List GroupVersionKind
cluster_types = of_group_version ("GroupReplicationCluster" ∷ "GroupReplicationClusterList" ∷ [])

-- `init` of singleinstance_types.go
unfoldable pub instance_types : List GroupVersionKind
instance_types = of_group_version ("SingleInstance" ∷ "SingleInstanceList" ∷ [])
