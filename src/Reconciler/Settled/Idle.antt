-- ===== src/Reconciler/Settled/Idle.antt =====
-- A call of Reconcile for a settled cluster.
use raft_based_mysql_cluster.Prelude.{
  Str, str_eq, str_eq_refl, true, [], Option, some, none, ◌≡◌, inl, inr, refl, ◌∙◌, Bool-cases,
  if◌then◌else◌,
}
use raft_based_mysql_cluster.Api.{MysqlCluster}
use raft_based_mysql_cluster.Go.{ok, pure, try}
use raft_based_mysql_cluster.Go.Rules.{bind-ok}
use raft_based_mysql_cluster.Kube.Client.{Client}
use raft_based_mysql_cluster.Raft.Node.{RaftManager}
use raft_based_mysql_cluster.Raft.Election.{is_leader}
use raft_based_mysql_cluster.Integration.{ignore_error}
use raft_based_mysql_cluster.Reconciler.{
  Reconciler, Observed, within, modify, is_initialized, ensure_raft, repair_replicas,
  reconcile_raft_based_master_slave, ensure_semi_sync_replication, supervise, reconcile_cluster,
  reconcile,
}
use raft_based_mysql_cluster.Reconciler.Total.{within-ok, reconcile-ok, enabled}
use raft_based_mysql_cluster.Reconciler.Settled.{IsSettled}
use raft_based_mysql_cluster.Reconciler.Settled.Reads.{alive, replicas_idle, leader_idle}

module _ {S : Type 0} (client : Client S) (cluster : MysqlCluster) (s : S)
    (settled : IsSettled client cluster s) where
  raft_idle :
      (observed : Observed) (rm : RaftManager) (r : Reconciler)
      → reconcile_raft_based_master_slave client observed rm cluster (r, s) ≡ (ok tt, (r, s))
  unfolding reconcile_raft_based_master_slave
  raft_idle observed rm r =
      bind-ok _ _ (r, s) (r, s) true (within-ok _ r s s true (alive client cluster s settled)) ∙ go
    where
      go :
          (if is_leader observed.current_state
              then within (repair_replicas client observed cluster)
              else pure tt)
            (r, s)
          ≡ (ok tt, (r, s))
      go = elim (Bool-cases (is_leader observed.current_state)) [
        | inl e ↦ rw e (within-ok _ r s s tt (leader_idle client cluster s settled observed))
        | inr e ↦ rw e (unfold pure in refl)
      ]

  unrecorded_idle :
      (observed : Observed) (rm : RaftManager)
      → ensure_semi_sync_replication client observed rm cluster s ≡ (ok tt, s)
  unfolding ensure_semi_sync_replication pure
  unrecorded_idle observed rm = elim settled.unrecorded [
    | inl e ↦ rw (e, str_eq_refl []) refl
    | inr e ↦ elim (Bool-cases (str_eq cluster.status.master [])) [
      | inl empty ↦ rw empty refl
      | inr named ↦ rw (named, e) refl
    ]
  ]

  semi_sync_idle :
      (observed : Observed) (rm : RaftManager)
      → ignore_error client cluster (ensure_semi_sync_replication client observed rm cluster) s
        ≡ (ok tt, s)
  unfolding ignore_error try
  semi_sync_idle observed rm = rw (unrecorded_idle observed rm) (unfold pure in refl)

  raft_there :
      (observed : Observed) (r : Reconciler)
      → (rm : RaftManager) × (r' : Reconciler) × (ensure_raft observed cluster (r, s)
          ≡ (ok rm, (r', s)))
  unfolding ensure_raft pure
  raft_there observed r = go r.raft_manager
    where
      go :
          (o : Option RaftManager)
          → (rm : RaftManager) × (r' : Reconciler) × (ensure_raft observed cluster
                (record r { raft_manager = o }, s)
              ≡ (ok rm, (r', s)))
      go none = (_, _, refl)
      go (some rm) = (rm, _, refl)

  supervised :
      (observed : Observed) (r : Reconciler)
      → (r' : Reconciler) × (supervise client observed cluster (r, s) ≡ (ok tt, (r', s)))
  unfolding supervise
  supervised observed r =
      let (rm, r', e) = raft_there observed r in
      (
        r',
        bind-ok _ _ (r, s) (r', s) rm e
            ∙ bind-ok _ _ (r', s) (r', s) tt
                (within-ok _ r' s s tt
                  (replicas_idle client cluster s settled observed.order observed.polls))
            ∙ bind-ok _ _ (r', s) (r', s) tt (raft_idle observed rm r')
            ∙ within-ok _ r' s s tt (semi_sync_idle observed rm),
      )

  -- A call of Reconcile that reads the cluster, once initialized and settled, returns without an
  -- error, whether the node leads or not, and leaves the state of the API server and the pods as it
  -- was.
  pub settled_idle :
      (observed : Observed) (namespace name : Str) (r : Reconciler)
      → client.get_cluster namespace name s ≡ (ok cluster, s)
      → is_initialized cluster ≡ true
      → (r' : Reconciler) × (reconcile client observed namespace name (r, s) ≡ (ok tt, (r', s)))
  unfolding reconcile_cluster modify
  settled_idle observed namespace name r read old =
      let (r', e) = supervised observed r in
      (
        enabled r',
        reconcile-ok client observed cluster namespace name r s s read
            ∙ rw old (bind-ok _ _ (r, s) (r', s) tt e ∙ (unfold pure in refl)),
      )
