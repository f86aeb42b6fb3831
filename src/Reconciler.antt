-- ===== src/Reconciler.antt =====
-- internal/controller/mysqlcluster_controller.go: the fields of the reconciler and one call of
-- Reconcile, with what the goroutines of the node do meanwhile as observations.
pub mod First
pub mod Total
pub mod Settled
pub mod Watch
pub mod Stuck
use raft_based_mysql_cluster.Prelude.{
  ℕ, ℤ, pos, Str, lit, str_eq, Bool, true, false, not, ◌&&◌, ◌||◌, List, [], ◌∷◌, ◌++◌, Option,
  none, some, if◌then◌else◌,
}
use raft_based_mysql_cluster.Prelude.Assoc.{Assoc, lookup, insert}
use raft_based_mysql_cluster.Api.{RaftState, MysqlCluster}
use raft_based_mysql_cluster.Go.{Error, Result, Go, pure, raise, map_err, ◌>>=◌, ◌>>◌, try}
use raft_based_mysql_cluster.Kube.Client.{Client}
use raft_based_mysql_cluster.Raft.Clock.{Time}
use raft_based_mysql_cluster.Raft.Node.{RaftManager, new_raft_manager, node_name}
use raft_based_mysql_cluster.Raft.Election.{is_leader}
use raft_based_mysql_cluster.Raft.Steps.{force_election}
use raft_based_mysql_cluster.Resources.{mysql_cluster_kind}
use raft_based_mysql_cluster.Replication.{setup_master_slave_replication}
use raft_based_mysql_cluster.MasterSlave.{
  check_master_status, check_replica_status, ensure_slave_roles,
}
use raft_based_mysql_cluster.Integration.{
  handle_raft_based_failover, configure_semi_sync_replication, ignore_error,
}
use raft_based_mysql_cluster.Controller.{init, reconcile_replicas}

-- MysqlClusterReconciler without its client, logger and scheme. RaftIntegration is set together
-- with RaftManager and shares its cluster.
pub record Reconciler : Type 0 where
  pub master_gtid_snapshot : Str
  pub snapshot_enabled : Bool
  pub raft_manager : Option RaftManager

-- getCurrentNodeId
unfoldable pub get_current_node_id : MysqlCluster → Str
get_current_node_id cluster = node_name cluster.name 0

-- `_, ok := cluster.Annotations["initialized"]`
unfoldable pub is_initialized : MysqlCluster → Bool
is_initialized cluster = elim (lookup (lit "initialized") cluster.annotations) [
  | none ↦ false
  | some _ ↦ true
]

unfoldable pub mark_initialized : MysqlCluster → MysqlCluster
mark_initialized cluster = record cluster {
  annotations = insert (lit "initialized") (lit "true") cluster.annotations;
}

-- What Reconcile meets that it does not decide: the order of the keys of a map, the rounds of the
-- loop that waits for a pod, the clock and rand.Intn at the start of the node, the state of the
-- node when the master is checked, and the node in each round of a failover.
pub record Observed : Type 0 where
  pub order : List Str → List Str
  pub polls : ℕ
  pub now : Time
  pub random : ℕ
  pub current_state : RaftState
  pub rounds : List RaftManager

-- The fields of the reconciler are read and written by its own calls only.
abbrev pub Run : Type 0 → Type 0 → Type 0
Run S A = Go (Reconciler × S) A

-- A call that leaves the fields of the reconciler alone.
unfoldable pub within : {S A : Type 0} → Go S A → Run S A
within m (r, s) = let (a, s') = m s in (a, (r, s'))

unfoldable pub modify : {S : Type 0} → (Reconciler → Reconciler) → Run S (Unit {0})
unfolding pure
modify f (r, s) = pure tt (f r, s)

-- The node, started by initializeRaft where there is none yet.
unfoldable pub ensure_raft : {S : Type 0} → Observed → MysqlCluster → Run S RaftManager
ensure_raft observed cluster (r, s) = elim r.raft_manager [
  | some rm ↦ pure rm (r, s)
  | none ↦
      let rm =
        new_raft_manager (get_current_node_id cluster) cluster observed.random observed.now in
      pure rm (record r { raft_manager = some rm }, s)
]

unfoldable pub force_raft : Reconciler → Reconciler
force_raft r = elim r.raft_manager [
  | none ↦ r
  | some rm ↦ record r { raft_manager = some (force_election rm) }
]

module _ {S : Type 0} (client : Client S) (observed : Observed) where
  -- The part of a leader.
  unfoldable pub repair_replicas : MysqlCluster → Go S (Unit {0})
  repair_replicas cluster = do
    status ← check_replica_status client cluster
    (elim status.1 [
      | [] ↦ pure tt
      | _ ∷ _ ↦ setup_master_slave_replication client status.0 status.1 cluster
    ])
    ensure_slave_roles client cluster

  unfoldable pub reconcile_raft_based_master_slave : RaftManager → MysqlCluster → Run S (Unit {0})
  reconcile_raft_based_master_slave rm cluster = do
    master_alive ← within (check_master_status client cluster)
    if not master_alive
        then (do
          modify force_raft
          within (handle_raft_based_failover client rm.cluster observed.rounds))
        else if is_leader observed.current_state
        then within (repair_replicas cluster)
        else pure tt

  unfoldable pub ensure_semi_sync_replication : RaftManager → MysqlCluster → Go S (Unit {0})
  ensure_semi_sync_replication rm cluster =
      if str_eq cluster.status.master [] then pure tt else elim cluster.status.slaves [
        | [] ↦ pure tt
        | slave ∷ slaves ↦
            configure_semi_sync_replication client rm.cluster cluster.status.master (slave ∷ slaves)
      ]

  unfoldable pub initialize : MysqlCluster → Run S (Unit {0})
  initialize cluster =
      within
        (do init client observed.polls cluster; client.update_cluster (mark_initialized cluster))

  unfoldable pub supervise : MysqlCluster → Run S (Unit {0})
  supervise cluster = do
    rm ← ensure_raft observed cluster
    within (reconcile_replicas client observed.order observed.polls cluster)
    reconcile_raft_based_master_slave rm cluster
    within (ignore_error client cluster (ensure_semi_sync_replication rm cluster))

  -- The part of Reconcile behind the read, whose last step starts the goroutine of the snapshot.
  unfoldable pub reconcile_cluster : MysqlCluster → Run S (Unit {0})
  reconcile_cluster cluster =
      (if is_initialized cluster then supervise cluster else initialize cluster)
      >> modify (λ r. record r { snapshot_enabled = true })

  -- Reconcile of a request, with client.IgnoreNotFound.
  unfoldable pub reconcile : Str → Str → Run S (Unit {0})
  reconcile namespace name =
      try (within (client.get_cluster namespace name)) reconcile_cluster
        (λ e. if e.not_found then pure tt else raise e)

-- GroupVersion of api/v1/groupversion_info.go, the group and the version that the scheme has for
-- MysqlCluster, as an apiVersion names them.
unfoldable pub group_version : Str
group_version = lit "apps.ryansu.com/v1"

-- What the controller watches: the kind whose objects it reconciles, with its API version, and the
-- kinds whose objects stand for the object that owns them.
pub record Watches : Type 0 where
  pub api_version : Str
  pub kind : Str
  pub owned_kinds : List Str

-- SetupWithManager; `complete` is what the builder does with the watches.
unfoldable pub setup_with_manager : {S : Type 0} → (Watches → Go S (Unit {0})) → Go S (Unit {0})
setup_with_manager complete = complete (record {
  api_version = group_version;
  kind = mysql_cluster_kind;
  owned_kinds = lit "Pod" ∷ [];
})
