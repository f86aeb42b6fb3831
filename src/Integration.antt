-- ===== src/Integration.antt =====
-- internal/controller/raft_mysql_integration.go: the master that Raft elects, and what is run in the
-- pods to make it the master.
pub mod SemiSync
pub mod Election
pub mod Failover
use raft_based_mysql_cluster.Prelude.{
  Str, lit, contains_text, Bool, true, false, not, List, [], ◌∷◌, ◌++◌, if◌then◌else◌,
}
use raft_based_mysql_cluster.Api.{MysqlCluster}
use raft_based_mysql_cluster.Go.{
  Error, Result, ok, err, panic, Go, errorf, wrap, pure, raise, lift, map_err, ◌>>=◌, ◌>>◌, try,
  for_each,
}
use raft_based_mysql_cluster.Kube.{Pod}
use raft_based_mysql_cluster.Kube.Client.{Client}
use raft_based_mysql_cluster.Raft.Node.{RaftManager, get_cluster_nodes, others}
use raft_based_mysql_cluster.Raft.Election.{is_leader}
use raft_based_mysql_cluster.Replication.{with_role}
use raft_based_mysql_cluster.Resources.{mysql_password}

-- RaftBasedMasterElection: the node as each round of the loop reads it, until the 30 seconds are up.
unfoldable pub raft_based_master_election : List RaftManager → Result (Str × List Str)
raft_based_master_election [] = err (errorf (lit "Raft选举超时"))
raft_based_master_election (rm ∷ later) =
    let rest = raft_based_master_election later in
    if is_leader rm.state then ok (rm.node_id, others rm.node_id (get_cluster_nodes rm)) else rest

-- fmt.Sprintf("mysql -uroot -p%s -e \"%s\"", MySQLPassword, cmd)
unfoldable pub mysql_command : Str → Str
mysql_command cmd = lit "mysql -uroot -p" ++ (mysql_password ++ (lit " -e \"" ++ (cmd ++ lit "\"")))

-- execCommandOnPod of this file, which runs nothing.
unfoldable pub exec_command_on_pod : {S : Type 0} → Pod → Str → Go S Str
unfolding pure
exec_command_on_pod pod command = pure []

abbrev pub master_semi_sync_commands : List Str
master_semi_sync_commands =
    lit "INSTALL PLUGIN rpl_semi_sync_master SONAME 'semisync_master.so';"
    ∷ lit "SET GLOBAL rpl_semi_sync_master_enabled = 1;"
    ∷ lit "SET GLOBAL rpl_semi_sync_master_timeout = 1000;"
    ∷ lit "SET GLOBAL rpl_semi_sync_master_wait_for_slave_count = 1;"
    ∷ []

abbrev pub slave_semi_sync_commands : List Str
slave_semi_sync_commands =
    lit "INSTALL PLUGIN rpl_semi_sync_slave SONAME 'semisync_slave.so';"
    ∷ lit "SET GLOBAL rpl_semi_sync_slave_enabled = 1;"
    ∷ lit "STOP SLAVE IO_THREAD;"
    ∷ lit "START SLAVE IO_THREAD;"
    ∷ []

abbrev pub master_role_commands : List Str
master_role_commands =
    lit "RESET MASTER;"
    ∷ lit "SET GLOBAL read_only = 0;"
    ∷ lit "SET GLOBAL super_read_only = 0;"
    ∷ []

-- pod.Labels["role"] = role, which panics where the map is nil, as it is of a pod without labels.
unfoldable pub set_role : Str → Pod → Result Pod
set_role role pod = elim pod.meta.labels [ [] ↦ panic | _ ∷ _ ↦ ok (with_role role pod) ]

module _ {S : Type 0} (client : Client S) (cluster : MysqlCluster) where
  -- getPodByName
  unfoldable pub get_pod_by_name : Str → Go S Pod
  get_pod_by_name name = client.get_pod cluster.namespace name

  -- A command that may have been run before.
  unfoldable pub run_once : Str → Pod → Str → Go S (Unit {0})
  run_once what pod cmd =
      try (exec_command_on_pod pod (mysql_command cmd)) (λ _. pure tt)
        λ e.
          if not (contains_text e.text (lit "already exists"))
          then raise (wrap (what ++ (lit " [" ++ (cmd ++ lit "]: "))) e)
          else pure tt

  unfoldable pub configure_master_semi_sync : Str → Go S (Unit {0})
  configure_master_semi_sync master_name = do
    pod ← get_pod_by_name master_name
    for_each (run_once (lit "执行主库半同步配置命令失败") pod) master_semi_sync_commands

  unfoldable pub configure_slave_semi_sync : Str → Go S (Unit {0})
  configure_slave_semi_sync slave_name = do
    pod ← get_pod_by_name slave_name
    for_each (run_once (lit "执行从库半同步配置命令失败") pod) slave_semi_sync_commands

  -- The check of one replica, which skips a replica that cannot be read or asked.
  unfoldable pub verify_slave : Str → Go S (Unit {0})
  verify_slave slave_name =
      try (get_pod_by_name slave_name)
        (λ pod.
          try
            (exec_command_on_pod pod
              (mysql_command (lit "SHOW STATUS LIKE 'Rpl_semi_sync_slave_status';")))
            (λ result.
              if not (contains_text result (lit "ON"))
              then raise (errorf (lit "从库 " ++ (slave_name ++ lit " 半同步复制未启用")))
              else pure tt)
            (λ _. pure tt))
        (λ _. pure tt)

  unfoldable pub verify_semi_sync_status : Str → List Str → Go S (Unit {0})
  verify_semi_sync_status master_name slave_names = do
    pod ← get_pod_by_name master_name
    result ← map_err (wrap (lit "检查主库半同步状态失败: ")) (
        exec_command_on_pod pod
          (mysql_command (lit "SHOW STATUS LIKE 'Rpl_semi_sync_master_status';")))
    if not (contains_text result (lit "ON"))
        then raise (errorf (lit "主库半同步复制未启用"))
        else for_each verify_slave slave_names

  -- An error that is only logged.
  unfoldable pub ignore_error : Go S (Unit {0}) → Go S (Unit {0})
  ignore_error m = try m pure (λ _. pure tt)

  unfoldable pub configure_semi_sync_replication : Str → List Str → Go S (Unit {0})
  configure_semi_sync_replication master_name slave_names = do
    map_err (wrap (lit "配置主库半同步复制失败: ")) (configure_master_semi_sync master_name)
    for_each (λ slave. ignore_error (configure_slave_semi_sync slave)) slave_names
    verify_semi_sync_status master_name slave_names

  unfoldable pub run_role_command : Pod → Str → Go S (Unit {0})
  run_role_command pod cmd =
      try (exec_command_on_pod pod (mysql_command cmd)) (λ _. pure tt)
        λ e. raise (wrap (lit "执行主库配置命令失败 [" ++ (cmd ++ lit "]: ")) e)

  unfoldable pub ensure_mysql_master_role : Str → Go S (Unit {0})
  ensure_mysql_master_role master_name = do
    pod ← get_pod_by_name master_name
    for_each (run_role_command pod) master_role_commands
    labelled ← lift (set_role (lit "master") pod)
    client.update_pod labelled

  abbrev pub change_master_command : Str
  change_master_command =
      lit "CHANGE MASTER TO MASTER_HOST='"
      ++ (cluster.spec.master_service
          ++ (b'.'
              ∷ (cluster.namespace
                  ++ (lit ".svc.cluster.local', MASTER_USER='root', MASTER_PASSWORD='"
                      ++ (mysql_password ++ lit "', MASTER_AUTO_POSITION=1;")))))

  unfoldable pub ensure_mysql_slave_role : Str → Go S (Unit {0})
  ensure_mysql_slave_role slave_name = do
    pod ← get_pod_by_name slave_name
    try (exec_command_on_pod pod (mysql_command (lit "STOP SLAVE;"))) (λ _. pure tt) (λ _. pure tt)
    map_err (wrap (lit "配置从库主库连接失败: "))
        (exec_command_on_pod pod (mysql_command change_master_command))
    map_err (wrap (lit "启动从库复制失败: ")) (exec_command_on_pod pod (mysql_command (lit "START SLAVE;")))
    try
        (exec_command_on_pod pod
          (mysql_command (lit "SET GLOBAL read_only = 1; SET GLOBAL super_read_only = 1;")))
        (λ _. pure tt) (λ _. pure tt)
    labelled ← lift (set_role (lit "slave") pod)
    client.update_pod labelled

  -- setupMySQLMasterSlaveReplication
  unfoldable pub setup_mysql_replication : Str → List Str → Go S (Unit {0})
  setup_mysql_replication master_name slave_names = do
    map_err (wrap (lit "设置MySQL主库角色失败: ")) (ensure_mysql_master_role master_name)
    for_each
        (λ slave.
          map_err (wrap (lit "设置MySQL从库角色失败 [" ++ (slave ++ lit "]: ")))
            (ensure_mysql_slave_role slave))
        slave_names

  -- HandleRaftBasedFailover behind the change of the node, which is `force_election`.
  unfoldable pub handle_raft_based_failover : List RaftManager → Go S (Unit {0})
  handle_raft_based_failover observed = do
    elected ← map_err (wrap (lit "Raft故障转移失败: ")) (lift (raft_based_master_election observed))
    map_err (wrap (lit "配置MySQL主从关系失败: ")) (setup_mysql_replication elected.0 elected.1)
    ignore_error (configure_semi_sync_replication elected.0 elected.1)
