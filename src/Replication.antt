-- ===== src/Replication.antt =====
-- internal/controller/utlis.go, the second half: the labels of the pods, the commands that make one
-- pod the master and the others its replicas, and who is which.
pub mod Roles
pub mod Total
use raft_based_mysql_cluster.Prelude.{
  ℤ, pos, int32, Option, none, some, Str, lit, List, [], ◌∷◌, ◌++◌, map, length,
}
use raft_based_mysql_cluster.Prelude.Assoc.{insert}
use raft_based_mysql_cluster.Api.{MysqlCluster}
use raft_based_mysql_cluster.Go.{
  Error, Go, errorf, wrap, pure, raise, lift, panic, map_err, ◌>>=◌, ◌>>◌, try, for_each,
}
use raft_based_mysql_cluster.Kube.{Pod, Endpoints}
use raft_based_mysql_cluster.Kube.Client.{Client}
use raft_based_mysql_cluster.Resources.{mysql_password}
use raft_based_mysql_cluster.Raft.Node.{others}

-- fmt.Errorf("<what> %s: %v", name, err)
abbrev pub failed : Str → Str → Error → Error
failed what name = wrap (what ++ (b' ' ∷ (name ++ lit ": ")))

-- pod.Labels["role"] = role
unfoldable pub with_role : Str → Pod → Pod
with_role role pod = record pod {
  meta = record pod.meta { labels = insert (lit "role") role pod.meta.labels };
}

unfoldable pub master_command : Str
master_command =
    lit "mysql -uroot -p"
    ++ (mysql_password
        ++ lit
            " -e \"CREATE USER IF NOT EXISTS 'replica'@'%' IDENTIFIED BY 'password'; GRANT REPLICATION SLAVE ON *.* TO 'replica'@'%';STOP slave;\"")

unfoldable pub slave_command : Str → Str
slave_command master_service =
    lit "mysql -uroot -p"
    ++ (mysql_password
        ++ (lit " -e \"STOP SLAVE;CHANGE MASTER TO MASTER_HOST='"
            ++ (master_service
                ++ lit
                    "', MASTER_USER='replica', MASTER_PASSWORD='password', MASTER_AUTO_POSITION=1; START SLAVE;\"")))

module _ {S : Type 0} (client : Client S) where
  unfoldable pub label_pod : Str → Str → MysqlCluster → Go S (Unit {0})
  label_pod pod_name role cluster = do
    pod ←
        map_err (failed (lit "failed to get pod") pod_name)
          (client.get_pod cluster.namespace pod_name)
    map_err (failed (lit "failed to update pod") pod_name) (client.update_pod (with_role role pod))

  -- The round of one replica in setupMasterSlaveReplication.
  unfoldable pub setup_slave : MysqlCluster → Str → Go S (Unit {0})
  setup_slave cluster slave_name = do
    pod ←
        map_err (failed (lit "failed to get slave pod") slave_name)
          (client.get_pod cluster.namespace slave_name)
    map_err (failed (lit "failed to execute command on slave pod") slave_name)
        (client.run_command pod (slave_command cluster.spec.master_service))
    map_err (failed (lit "failed to label slave pod") slave_name)
        (label_pod slave_name (lit "slave") cluster)

  unfoldable pub setup_master_slave_replication : Str → List Str → MysqlCluster → Go S (Unit {0})
  setup_master_slave_replication master_name slave_names cluster = do
    pod ←
        map_err (failed (lit "failed to get master pod") master_name)
          (client.get_pod cluster.namespace master_name)
    map_err (failed (lit "failed to label master pod") master_name)
        (label_pod master_name (lit "master") cluster)
    map_err (failed (lit "failed to execute command on master pod") master_name)
        (client.run_command pod master_command)
    for_each (setup_slave cluster) slave_names

  -- The first address of the first subset, if there is one; a nil TargetRef panics.
  unfoldable pub first_address : Str → Endpoints → Go S Str
  first_address service endpoints = elim endpoints.subsets [
    | [] ↦ raise (errorf (lit "no endpoints found for service " ++ service))
    | addresses ∷ _ ↦ elim addresses [
      | [] ↦ raise (errorf (lit "no endpoints found for service " ++ service))
      | target ∷ _ ↦ elim target [ none ↦ lift panic | some name ↦ pure name ]
    ]
  ]

  unfoldable pub get_master_pod_name_from_endpoints : MysqlCluster → Go S Str
  get_master_pod_name_from_endpoints cluster = do
    endpoints ←
        map_err (failed (lit "failed to get endpoints for service") cluster.spec.master_service)
          (client.get_endpoints cluster.namespace cluster.spec.master_service)
    first_address cluster.spec.master_service endpoints

  -- getActualReplicaInfo: a list that fails counts as empty.
  unfoldable pub get_actual_replica_info : MysqlCluster → Go S (ℤ × List Str)
  get_actual_replica_info cluster =
      try (client.list_pods cluster.namespace (lit "app") (lit "mysql"))
        (λ pods. pure (int32 (pos (length pods)), map (λ (pod : Pod). pod.meta.name) pods))
        (λ _. pure (pos 0, []))

  -- The names other than the master's.
  unfoldable pub get_replica_pods_names : MysqlCluster → Str → Go S (List Str)
  get_replica_pods_names cluster master_pod_name = do
    info ← get_actual_replica_info cluster
    pure (others master_pod_name info.1)
