-- ===== src/MasterSlave.antt =====
-- internal/controller/reconcile_master_slave.go: whether the master is alive, which replicas have
-- stopped to replicate, and what is done about either.
pub mod Status
pub mod Failover
pub mod Slaves
use raft_based_mysql_cluster.Prelude.{
  Str, lit, str_eq, contains_text, Bool, true, false, not, ◌&&◌, List, [], ◌∷◌, ◌++◌, Option, none,
  some, if◌then◌else◌,
}
use raft_based_mysql_cluster.Prelude.Assoc.{Assoc, lookup}
use raft_based_mysql_cluster.Api.{MysqlCluster}
use raft_based_mysql_cluster.Go.{Go, wrap, pure, map_err, ◌>>=◌, ◌>>◌, for_each}
use raft_based_mysql_cluster.Kube.{Pod, Endpoints}
use raft_based_mysql_cluster.Kube.Client.{Client}
use raft_based_mysql_cluster.Resources.{mysql_password}
use raft_based_mysql_cluster.Replication.{
  failed, with_role, setup_master_slave_replication, get_master_pod_name_from_endpoints,
  get_replica_pods_names,
}
use raft_based_mysql_cluster.Promotion.{Floats, elect_new_master}

-- len(endpoints.Subsets) == 0 || len(endpoints.Subsets[0].Addresses) == 0, denied.
unfoldable pub has_address : Endpoints → Bool
has_address endpoints = elim endpoints.subsets [
  | [] ↦ false
  | addresses ∷ _ ↦ elim addresses [ [] ↦ false | _ ∷ _ ↦ true ]
]

unfoldable pub slave_status_command : Str
slave_status_command =
    lit "mysql -uroot -p" ++ (mysql_password ++ lit " -e \"SHOW SLAVE STATUS \\G\"")

-- sqlThread && ioThread
unfoldable pub is_replicating : Str → Bool
is_replicating output =
    contains_text output (lit "Slave_SQL_Running: Yes")
    && contains_text output (lit "Slave_IO_Running: Yes")

-- pod.Labels["role"], which is empty where the label is missing.
unfoldable pub role_of : Pod → Str
role_of pod = elim (lookup (lit "role") pod.meta.labels) [ none ↦ [] | some role ↦ role ]

module _ {S : Type 0} (client : Client S) (cluster : MysqlCluster) where
  unfoldable pub check_master_status : Go S Bool
  check_master_status = do
    endpoints ← client.get_endpoints cluster.namespace cluster.spec.master_service
    pure (has_address endpoints)

  -- What a replica answers to the question after its threads.
  unfoldable pub slave_status : Str → Go S Str
  slave_status name = do
    pod ← map_err (failed (lit "failed to get pod") name) (client.get_pod cluster.namespace name)
    map_err (failed (lit "failed to execute command on pod") name)
        (client.run_command pod slave_status_command)

  -- The loop of checkReplicaStatus over the replicas.
  unfoldable pub failed_replicas : List Str → Go S (List Str)
  failed_replicas [] = pure []
  failed_replicas (name ∷ names) = do
    output ← slave_status name
    rest ← failed_replicas names
    pure (if is_replicating output then rest else name ∷ rest)

  unfoldable pub check_replica_status : Go S (Str × List Str)
  check_replica_status = do
    master_pod_name ←
        map_err (wrap (lit "failed to get master pod name: "))
          (get_master_pod_name_from_endpoints client cluster)
    names ←
        map_err (wrap (lit "failed to get replica pods: "))
          (get_replica_pods_names client cluster master_pod_name)
    failing ← failed_replicas names
    pure (master_pod_name, failing)

  -- The round of one pod in ensureSlaveRoles. The pods are listed by a label, so that their map of
  -- labels is not nil and the write does not panic.
  unfoldable pub ensure_slave_role : Str → Pod → Go S (Unit {0})
  ensure_slave_role master_pod_name pod =
      if not (str_eq pod.meta.name master_pod_name) && not (str_eq (role_of pod) (lit "slave"))
      then client.update_pod (with_role (lit "slave") pod)
      else pure tt

  unfoldable pub ensure_slave_roles : Go S (Unit {0})
  ensure_slave_roles = do
    master_pod_name ← get_master_pod_name_from_endpoints client cluster
    pods ← client.list_pods cluster.namespace (lit "app") (lit "mysql")
    for_each (ensure_slave_role master_pod_name) pods

  module _ (floats : Floats) (master_gtid_snapshot : Str) where
    unfoldable pub handle_master_failure : Go S (Unit {0})
    handle_master_failure = do
      elected ← elect_new_master floats client master_gtid_snapshot cluster
      setup_master_slave_replication client elected.0 elected.1 cluster

    unfoldable pub reconcile_master_slave : Go S (Unit {0})
    reconcile_master_slave = do
      master_alive ← check_master_status
      if not master_alive then handle_master_failure else (do
        status ← check_replica_status
        setup_master_slave_replication client status.0 status.1 cluster
        ensure_slave_roles)
