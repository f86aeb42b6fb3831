-- ===== src/Reconciler/Stuck.antt =====
-- Reconcile while the master is down.
use raft_based_mysql_cluster.Prelude.{Str, true, false, some, ◌≡◌, refl, ap, sym, ◌∙◌}
use raft_based_mysql_cluster.Api.{MysqlCluster}
use raft_based_mysql_cluster.Go.{Result, ok, err, waiting, panic, Go, pure}
use raft_based_mysql_cluster.Go.Keeps.{Holds, Ensures, Ensures-bind, Ensures-pure}
use raft_based_mysql_cluster.Go.Rules.{Gives, Gives-then, Gives-never, bind-ok, bind-gives, not-ok}
use raft_based_mysql_cluster.Kube.{Endpoints}
use raft_based_mysql_cluster.Kube.Client.{Client}
use raft_based_mysql_cluster.Kube.Client.Laws.{Anything}
use raft_based_mysql_cluster.Raft.Node.{RaftManager}
use raft_based_mysql_cluster.MasterSlave.{has_address, check_master_status}
use raft_based_mysql_cluster.Integration.Failover.{AllNamed, failover_fails}
use raft_based_mysql_cluster.Reconciler.{
  Reconciler, Observed, within, is_initialized, ensure_raft, reconcile_raft_based_master_slave,
  supervise, reconcile_cluster, reconcile,
}
use raft_based_mysql_cluster.Reconciler.Total.{reconcile-ok}

Ensures-within :
    {S A : Type 0} (Q : A → Type 0) (m : Go S A)
    → Ensures Anything (λ a s. Q a) m
    → Ensures Anything (λ a (rs : Reconciler × S). Q a) (within m)
unfolding within
Ensures-within {S} {A} Q m h = record { at = λ rs p. go rs.0 (m rs.1).0 (m rs.1).1 (h.at rs.1 tt) }
  where
    go :
        (f : Reconciler) (r : Result A) (s : S)
        → Holds Anything (λ a s. Q a) r s
        → Holds Anything (λ a (rs : Reconciler × S). Q a) r (f, s)
    go f (ok a) s q = q
    go f (err e) s q = tt
    go f waiting s q = tt
    go f panic s q = tt

never-within :
    {S A : Type 0} (m : Go S A) → Gives (λ s. ⊥) m → Gives (λ (rs : Reconciler × S). ⊥) (within m)
never-within m h = Ensures-within (λ a. ⊥) m h

module _ {S : Type 0} (client : Client S) (observed : Observed) (cluster : MysqlCluster)
    (rm : RaftManager)
    (down : Ensures Anything
      (λ (e : Endpoints) s. has_address e ≡ false)
      (client.get_endpoints cluster.namespace cluster.spec.master_service))
    (absent : Gives (λ s. ⊥) (client.get_pod rm.cluster.namespace rm.node_id))
    (named : AllNamed rm.node_id observed.rounds) where
  master_down : Ensures Anything (λ alive s. alive ≡ false) (check_master_status client cluster)
  unfolding check_master_status
  master_down =
      Ensures-bind (λ (e : Endpoints) s. has_address e ≡ false) _ _ _ down
        (λ e s p q. (Ensures-pure _ (has_address e) (λ t u. q)).at s tt)

  repair_fails : Gives (λ rs. ⊥) (reconcile_raft_based_master_slave client observed rm cluster)
  unfolding reconcile_raft_based_master_slave
  repair_fails =
      Ensures-bind (λ alive rs. alive ≡ false) _ _ _
        (Ensures-within (λ alive. alive ≡ false) _ master_down)
        (λ alive rs p q. rw q (
          (Gives-then _ _ (λ _.
              never-within _
                (failover_fails client rm.cluster rm.node_id absent observed.rounds named))).at
            rs tt))

  -- The reconciler with its node.
  abbrev running : Reconciler → Reconciler
  running r = record r { raft_manager = some rm }

  supervise_fails :
      (r : Reconciler) (s : S) → ¬ ((supervise client observed cluster (running r, s)).0 ≡ ok tt)
  unfolding supervise ensure_raft pure
  supervise_fails r s h =
      let start : Reconciler × S = (running r, s) in
      let there : ensure_raft observed cluster start ≡ (ok rm, start) = refl in
      not-ok _ (Gives-then _ _ (λ _. Gives-never _ _ repair_fails)) start tt (
        sym (
          ap (λ (o : Result (Unit {0}) × (Reconciler × S)). o.0) (bind-ok _ _ start start rm there))
        ∙ h)

  -- While the endpoints of the master's service have no address, and no pod can be read under the
  -- name of the node, which it has in all rounds of the failover: once the cluster is initialized
  -- and the node runs, no call of Reconcile returns without an error, whatever else the API server
  -- and the pods do. Either an error, a panic or a wait without an end comes first, or the failover
  -- ends in an error.
  pub reconcile_stuck :
      (namespace name : Str) (r : Reconciler) (s s' : S)
      → client.get_cluster namespace name s ≡ (ok cluster, s')
      → is_initialized cluster ≡ true
      → ¬ ((reconcile client observed namespace name (running r, s)).0 ≡ ok tt)
  unfolding reconcile_cluster
  reconcile_stuck namespace name r s s' read old h =
      let h1 =
        rw (reconcile-ok client observed cluster namespace name (running r) s s' read, old) at h in
      let (a, t, e, _) = bind-gives _ _ (running r, s') tt h1 in
      supervise_fails r s' (ap (λ (o : Result (Unit {0}) × (Reconciler × S)). o.0) e)
