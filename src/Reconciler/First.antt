-- ===== src/Reconciler/First.antt =====
-- The call of Reconcile that finds the cluster new.
use raft_based_mysql_cluster.Prelude.{ℕ, ◌≤◌, pos_part, Str, false, ◌≡◌}
use raft_based_mysql_cluster.Prelude.Decimal.{show_02}
use raft_based_mysql_cluster.Api.{MysqlCluster}
use raft_based_mysql_cluster.Go.{Result, ok, err, waiting, panic, Go, pure, try}
use raft_based_mysql_cluster.Go.Keeps.{Holds, Keeps}
use raft_based_mysql_cluster.Go.Rules.{Gives, Gives-first}
use raft_based_mysql_cluster.Kube.Client.{Client}
use raft_based_mysql_cluster.Kube.Client.Laws.{AllKeep, Presence}
use raft_based_mysql_cluster.Replicas.{pod_name, config_map_name}
use raft_based_mysql_cluster.Controller.{init}
use raft_based_mysql_cluster.Controller.Creation.{init_creates}
use raft_based_mysql_cluster.Reconciler.{
  Reconciler, Observed, within, modify, is_initialized, mark_initialized, initialize,
  reconcile_cluster, reconcile,
}

-- The same of the pair of the reconciler's fields and the state of the cluster.
abbrev Beside : {S : Type 0} → (S → Type 0) → Reconciler × S → Type 0
Beside Q rs = Q rs.1

module _ {S : Type 0} {P : S → Type 0} where
  Gives-within : {A : Type 0} (m : Go S A) → Gives P m → Gives (Beside P) (within m)
  unfolding within
  Gives-within {A} m h = record { at = λ s p. go (m s.1).0 s.0 (m s.1).1 (h.at s.1 tt) }
    where
      go :
          (r : Result A) (f : Reconciler) (s : S)
          → Holds (λ _. Unit) (λ _ t. P t) r s
          → Holds (λ _. Unit) (λ _ t. Beside P t) r (f, s)
      go (ok a) f s h = h
      go (err e) f s h = h
      go waiting f s h = h
      go panic f s h = h

Keeps-modify :
    {S : Type 0} (Q : S → Type 0) (f : Reconciler → Reconciler) → Keeps (Beside Q) (modify f)
unfolding modify pure
Keeps-modify Q f = record { at = λ s p. (p, tt) }

-- What init gives, a first reconciliation gives.
first-Gives :
    {S : Type 0} {P : S → Type 0} (client : Client S) (observed : Observed) (cluster : MysqlCluster)
    → AllKeep client P
    → is_initialized cluster ≡ false
    → Gives P (init client observed.polls cluster)
    → Gives (Beside P) (reconcile_cluster client observed cluster)
unfolding reconcile_cluster initialize
first-Gives client observed cluster keep new h = rw new (
    Gives-first _ _
      (Gives-within _ (Gives-first _ _ h (λ _. keep.update_cluster (mark_initialized cluster))))
      (λ _. Keeps-modify _ _))

at_read :
    {S : Type 0} (P : S → Type 0) (client : Client S) (observed : Observed) (cluster : MysqlCluster)
    (namespace name : Str) (r : Reconciler) (s s' : S)
    → client.get_cluster namespace name s ≡ (ok cluster, s')
    → Gives (Beside P) (reconcile_cluster client observed cluster)
    → Holds
        (λ _. Unit)
        (λ _ t. Beside P t)
        (reconcile client observed namespace name (r, s)).0
        (reconcile client observed namespace name (r, s)).1
unfolding reconcile within try
at_read P client observed cluster namespace name r s s' read h = rw read (h.at (r, s') tt)

-- What a call of Reconcile leaves behind that returns without an error.
abbrev pub Leaves :
    {S : Type 0} → Client S → Observed → Str → Str → Reconciler × S → (S → Type 0) → Type 0
Leaves client observed namespace name rs P =
    Holds (λ _. Unit) (λ _ t. P t.1) (reconcile client observed namespace name rs).0
      (reconcile client observed namespace name rs).1

-- Where objects that are read or created are there and none is taken away (Presence): if Reconcile
-- reads a cluster without the annotation, and returns without an error, then there are the two
-- services, and for each number from 1 to the replicas of the specification the volume claim, the
-- ConfigMap and the pod.
pub reconcile_creates :
    {S : Type 0} (client : Client S) (there : Presence client) (observed : Observed)
    (cluster : MysqlCluster) (namespace name : Str) (r : Reconciler) (s s' : S) (i : ℕ)
    → client.get_cluster namespace name s ≡ (ok cluster, s')
    → is_initialized cluster ≡ false
    → 1 ≤ i
    → i ≤ pos_part cluster.spec.replicas
    → Leaves client observed namespace name
        (r, s)
        (there.HasService cluster.namespace cluster.spec.master_service)
      × Leaves client observed namespace name
          (r, s)
          (there.HasService cluster.namespace cluster.spec.slave_service)
      × Leaves client observed namespace name
          (r, s)
          (there.HasClaim cluster.namespace (pod_name (show_02 i)))
      × Leaves client observed namespace name
          (r, s)
          (there.HasConfigMap cluster.namespace (config_map_name (show_02 i)))
      × Leaves client observed namespace name
          (r, s)
          (there.HasPod cluster.namespace (pod_name (show_02 i)))
reconcile_creates client there observed cluster namespace name r s s' i read new lo hi =
    let (master, slave, (claim, config, pod)) =
      init_creates client there observed.polls cluster i lo hi in
    (
      at_read _ client observed cluster namespace name r s s' read
          (first-Gives client observed cluster (there.kept_service _ _) new master),
      at_read _ client observed cluster namespace name r s s' read
          (first-Gives client observed cluster (there.kept_service _ _) new slave),
      at_read _ client observed cluster namespace name r s s' read
          (first-Gives client observed cluster (there.kept_claim _ _) new claim),
      at_read _ client observed cluster namespace name r s s' read
          (first-Gives client observed cluster (there.kept_config_map _ _) new config),
      at_read _ client observed cluster namespace name r s s' read
          (first-Gives client observed cluster (there.kept_pod _ _) new pod),
    )
