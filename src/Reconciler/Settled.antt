-- ===== src/Reconciler/Settled.antt =====
-- A cluster that is as it should be.
pub mod Reads
pub mod Idle
use raft_based_mysql_cluster.Prelude.{
  ℕ, pos, int32, eqb_ℤ_iff, Str, lit, str_eq, str_eq_refl, str_eq_iff, true, List, [], ◌∷◌, map,
  length, Option, some, none, ◌≡◌, ◌≢◌, ◌⊎◌, inl, inr, refl, ◌∙◌, In, Bool-cases, if◌then◌else◌,
}
use raft_based_mysql_cluster.Api.{MysqlCluster}
use raft_based_mysql_cluster.Go.{ok, pure, try, for_each}
use raft_based_mysql_cluster.Go.Rules.{bind-ok}
use raft_based_mysql_cluster.Kube.{Pod, Endpoints}
use raft_based_mysql_cluster.Kube.Client.{Client}
use raft_based_mysql_cluster.Raft.Node.{RaftManager, others}
use raft_based_mysql_cluster.Raft.Node.Names.{In-others}
use raft_based_mysql_cluster.Raft.Election.{is_leader}
use raft_based_mysql_cluster.Replication.{
  first_address, get_master_pod_name_from_endpoints, get_actual_replica_info,
  get_replica_pods_names,
}
use raft_based_mysql_cluster.MasterSlave.{
  has_address, slave_status_command, is_replicating, role_of, check_master_status, slave_status,
  failed_replicas, check_replica_status, ensure_slave_role, ensure_slave_roles,
}
use raft_based_mysql_cluster.Promotion.Choice.{map_err-ok}
use raft_based_mysql_cluster.Controller.{reconcile_replicas}
use raft_based_mysql_cluster.Integration.{ignore_error}
use raft_based_mysql_cluster.Reconciler.{
  Reconciler, Observed, within, modify, is_initialized, ensure_raft, repair_replicas,
  reconcile_raft_based_master_slave, ensure_semi_sync_replication, supervise, reconcile_cluster,
  reconcile,
}
use raft_based_mysql_cluster.Reconciler.Total.{within-ok, reconcile-ok, enabled}

-- At the state `s` the API server answers, without a change: the master's service has an address,
-- there are as many pods as replicas, each pod other than the master has the role of a slave, and
-- both threads of its replication run. The status records no master or no slaves.
pub record IsSettled {S : Type 0} (client : Client S) (cluster : MysqlCluster) (s : S)
    : Type 0 where
  pub endpoints : Endpoints
  pub master : Str
  pub more : List (Option Str)
  pub subsets : List (List (Option Str))
  pub pods : List Pod
  pub answered :
      client.get_endpoints cluster.namespace cluster.spec.master_service s ≡ (ok endpoints, s)
  pub addressed : endpoints.subsets ≡ (some master ∷ more) ∷ subsets
  pub listed : client.list_pods cluster.namespace (lit "app") (lit "mysql") s ≡ (ok pods, s)
  pub counted : int32 (pos (length pods)) ≡ cluster.spec.replicas
  pub enslaved : (q : Pod) → In q pods → q.meta.name ≢ master → role_of q ≡ lit "slave"
  pub replicating :
      (q : Pod)
      → In q pods
      → q.meta.name ≢ master
      → (found : Pod) × (output : Str) × (client.get_pod cluster.namespace q.meta.name s
          ≡ (ok found, s))
        × (client.run_command found slave_status_command s ≡ (ok output, s))
        × (is_replicating output ≡ true)
  pub unrecorded : (cluster.status.master ≡ []) ⊎ (cluster.status.slaves ≡ [])
