-- ===== src/Controller.antt =====
-- The controller's functions that act on the cluster: reconcile_replicas.go, initialization.go and
-- reconcile_master_slave.go of internal/controller.
pub mod Numbers
pub mod Kept
pub mod Creation
pub mod Roles
pub mod Total
pub mod Repair
pub mod Refine
use raft_based_mysql_cluster.Prelude.{
  ℕ, zero, suc, ◌-◌, ℤ, pos, pos_part, ltb_ℤ, eqb_ℤ, max_int32, Str, lit, str_eq, Bool, true, false,
  not, ◌&&◌, List, [], ◌∷◌, ◌++◌, Option, none, some, if◌then◌else◌, ◌<◌,
}
use raft_based_mysql_cluster.Prelude.Assoc.{lookup}
use raft_based_mysql_cluster.Prelude.Decimal.{show_02, show_ℤ, value}
use raft_based_mysql_cluster.Api.{MysqlCluster}
use raft_based_mysql_cluster.Go.{
  Error, Go, errorf, wrap, pure, raise, lift, waiting, map_err, ◌>>=◌, ◌>>◌, try, for_each,
}
use raft_based_mysql_cluster.Kube.{Pod, Endpoints}
use raft_based_mysql_cluster.Kube.Client.{Client}
use raft_based_mysql_cluster.Resources.{
  create_config_map, create_pvc, create_pod, get_or_create_service, mysql_password,
}
use raft_based_mysql_cluster.Replicas.{
  extract_pod_numbers, generate_expected_pod_numbers, find_missing_pod_numbers, pod_name,
  config_map_name,
}
use raft_based_mysql_cluster.Replication.{
  failed, with_role, setup_master_slave_replication, get_master_pod_name_from_endpoints,
  get_actual_replica_info, get_replica_pods_names,
}

-- The numbers first, first + 1, … of the loops of init, `n` of them.
unfoldable pub count_up : ℕ → ℕ → List ℕ
count_up first zero = []
count_up first (suc n) = first ∷ count_up (suc first) n

-- slavePodNames of init, for the numbers of its loop.
unfoldable pub slave_pod_names : List ℕ → List Str
slave_pod_names [] = []
slave_pod_names (i ∷ is) = pod_name (show_02 i) ∷ slave_pod_names is

-- `for i := int32(1); i <= last; i++` with a body that may return an error. Nothing is above the
-- largest int32, so that a loop to it goes on behind its numbers and never ends.
unfoldable pub up_to : {S : Type 0} → ℤ → (ℕ → Go S (Unit {0})) → Go S (Unit {0})
up_to last body =
    for_each body (count_up 1 (pos_part last))
    >> (if ltb_ℤ last max_int32 then pure tt else lift waiting)

module _ {S : Type 0} (client : Client S) where
  -- The round of one missing number; strconv.Atoi reads digits, which the number consists of.
  unfoldable pub create_replica : ℕ → MysqlCluster → Str → Go S (Unit {0})
  create_replica polls cluster number =
      create_pvc client (pod_name number) cluster.spec.storage.storage_class_name cluster.namespace
        cluster.spec.storage.size cluster
      >> (create_config_map client (config_map_name number) (value 0 number) cluster.namespace
            cluster
          >> create_pod client polls (pod_name number) cluster.spec.image (config_map_name number)
              (pod_name number) cluster.namespace cluster)

  -- reconcileReplicas; `order` is the order in which Go visits the keys of a map.
  unfoldable pub reconcile_replicas : (List Str → List Str) → ℕ → MysqlCluster → Go S (Unit {0})
  reconcile_replicas order polls cluster = do
    info ← get_actual_replica_info client cluster
    if not (eqb_ℤ info.0 cluster.spec.replicas)
        then for_each (create_replica polls cluster) (
            find_missing_pod_numbers order (generate_expected_pod_numbers cluster.spec.replicas)
              (extract_pod_numbers info.1))
        else pure tt

  unfoldable pub init_config_map : MysqlCluster → ℕ → Go S (Unit {0})
  init_config_map cluster i =
      map_err (failed (lit "failed to create configmap") (config_map_name (show_02 i)))
        (create_config_map client (config_map_name (show_02 i)) i cluster.namespace cluster)

  unfoldable pub init_pvc : MysqlCluster → ℕ → Go S (Unit {0})
  init_pvc cluster i =
      create_pvc client (pod_name (show_02 i)) cluster.spec.storage.storage_class_name
        cluster.namespace cluster.spec.storage.size cluster

  unfoldable pub init_pod : ℕ → MysqlCluster → ℕ → Go S (Unit {0})
  init_pod polls cluster i = map_err (failed (lit "failed to create pod") (pod_name (show_02 i))) (
      create_pod client polls (pod_name (show_02 i)) cluster.spec.image
        (config_map_name (show_02 i)) (pod_name (show_02 i)) cluster.namespace cluster)

  -- The steps 3 to 6 of init: the loops over the numbers, and the replication. The loop that appends
  -- the names of the slaves is behind three others with its last number.
  unfoldable pub init_replicas : ℕ → MysqlCluster → Go S (Unit {0})
  init_replicas polls cluster = do
    up_to cluster.spec.replicas (init_config_map cluster)
    up_to cluster.spec.replicas (init_pvc cluster)
    up_to cluster.spec.replicas (init_pod polls cluster)
    map_err (wrap (lit "failed to setup master-slave: ")) (
        setup_master_slave_replication client (lit "mysql-01")
          (slave_pod_names (count_up 2 (pos_part cluster.spec.replicas - 1))) cluster)

  -- init
  unfoldable pub init : ℕ → MysqlCluster → Go S (Unit {0})
  init polls cluster = do
    map_err (wrap (lit "failed to create master service: ")) (
        get_or_create_service client cluster.spec.master_service (lit "master") cluster.namespace
          cluster)
    map_err (wrap (lit "failed to create slave service: ")) (
        get_or_create_service client cluster.spec.slave_service (lit "slave") cluster.namespace
          cluster)
    if ltb_ℤ cluster.spec.replicas (pos 1)
        then raise (errorf (lit "invalid replica count: " ++ show_ℤ cluster.spec.replicas))
        else init_replicas polls cluster
