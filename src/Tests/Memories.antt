-- ===== src/Tests/Memories.antt =====
-- The deep copies of the sample resources.
use greatsql_operator.Prelude.{some}
use greatsql_operator.Api.Memory.Heap.{pure}
use greatsql_operator.Api.Memory.Slots.Structs.{single_instance_at, group_replication_cluster_at}
use greatsql_operator.Api.Memory.DeepCopy as DeepCopy
use greatsql_operator.Api.Memory.Owned.{Held}
use greatsql_operator.Api.Memory.Copies.{Copied}
use greatsql_operator.Api.Memory.Plain.{Same}
use greatsql_operator.Api.Memory.Meant.{SingleInstanceMeant, GroupReplicationClusterMeant}
use greatsql_operator.Api.Memory.Independence.{
  ObjectMeant, single_instance_as_object-Copied, single_instance-Apart,
  group_replication_cluster-Copied,
}
use greatsql_operator.Tests.Heaps.{
  meant, start, external-Deep, held, after, copied, emptied, resized, resized-Agrees,
  emptied-Agrees, cluster_meant, cluster_start, cluster_held,
}

single_instance_as_object-Copied_example :
    Copied start
      (DeepCopy.single_instance_as_object pure (some 0) start)
      (λ o h'. ObjectMeant external-Deep 3 h' o (some meant))
single_instance_as_object-Copied_example =
    single_instance_as_object-Copied external-Deep (some 0) (some meant) start held

single_instance-Apart_example :
    Held (SingleInstanceMeant Same) single_instance_at 0 resized (some 0) (some meant)
    × Held (SingleInstanceMeant Same) single_instance_at 3 emptied (some 3) (some meant)
single_instance-Apart_example =
    single_instance-Apart external-Deep (some 0) (some 3) (some meant) start after emptied resized
      held copied resized-Agrees emptied-Agrees

group_replication_cluster-Copied_example :
    Copied cluster_start (DeepCopy.group_replication_cluster pure (some 0) cluster_start) (λ r' h'.
      Held
        (GroupReplicationClusterMeant Same)
        group_replication_cluster_at
        3
        h'
        r'
        (some cluster_meant)
      × Held
          (GroupReplicationClusterMeant Same)
          group_replication_cluster_at
          0
          h'
          (some 0)
          (some cluster_meant))
group_replication_cluster-Copied_example =
    group_replication_cluster-Copied external-Deep (some 0) (some cluster_meant) cluster_start
      cluster_held
