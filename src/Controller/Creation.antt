-- ===== src/Controller/Creation.antt =====
-- What init and the reconciliation of the replicas have created when they return without an error.
use raft_based_mysql_cluster.Prelude.{
  ℕ, ◌≤◌, ℤ, pos_part, eqb_ℤ, eqb_ℤ_iff, Str, Bool, true, false, not, List, ◌≡◌, ◌≢◌, arith, In,
  if◌then◌else◌,
}
use raft_based_mysql_cluster.Prelude.Decimal.{show_02}
use raft_based_mysql_cluster.Api.{MysqlCluster}
use raft_based_mysql_cluster.Go.{Go, Error, ok, waiting, pure, raise, ◌>>=◌, for_each}
use raft_based_mysql_cluster.Go.Keeps.{Holds, Keeps}
use raft_based_mysql_cluster.Go.Rules.{
  Gives, Keeps-map_err, Keeps-if, Keeps-pure, Keeps-lift, Gives-first, Gives-then, Gives-raise,
  Gives-map_err, Gives-for_each, Keeps-bind, bind-ok,
}
use raft_based_mysql_cluster.Kube.Client.{Client}
use raft_based_mysql_cluster.Kube.Client.Laws.{Presence}
use raft_based_mysql_cluster.Resources.Present.{
  Keeps-create_config_map, Keeps-create_pod, Keeps-get_or_create_service, Gives-create_config_map,
  Gives-create_pvc, Gives-create_pod, Gives-get_or_create_service,
}
use raft_based_mysql_cluster.Replicas.{
  pod_name, config_map_name, find_missing_pod_numbers, generate_expected_pod_numbers,
  extract_pod_numbers,
}
use raft_based_mysql_cluster.Replication.{get_actual_replica_info}
use raft_based_mysql_cluster.Replicas.Numbers.{pod_names}
use raft_based_mysql_cluster.Replicas.Missing.{IsVisit, missing_iff}
use raft_based_mysql_cluster.Controller.{
  create_replica, count_up, up_to, init_config_map, init_pvc, init_pod, init_replicas, init,
  reconcile_replicas,
}
use raft_based_mysql_cluster.Controller.Numbers.{In-count_up}
use raft_based_mysql_cluster.Controller.Kept.{
  Keeps-setup_master_slave_replication, Keeps-up_to, Keeps-create_replica, Keeps-init_config_map,
  Keeps-init_pvc, Keeps-init_pod, Keeps-init_rest, Keeps-init_body,
}

module _ {S : Type 0} (client : Client S) (there : Presence client) where
  open there use {HasConfigMap, HasClaim, HasPod, HasService}

  -- A run that returns without an error leaves the claim, the ConfigMap and the pod of a number.
  abbrev pub GivesReplica : {A : Type 0} → Str → Str → Go S A → Type 0
  GivesReplica namespace number m =
      Gives (HasClaim namespace (pod_name number)) m
      × Gives (HasConfigMap namespace (config_map_name number)) m
      × Gives (HasPod namespace (pod_name number)) m

  Gives-create_replica :
      (polls : ℕ) (cluster : MysqlCluster) (number : Str)
      → GivesReplica cluster.namespace number (create_replica client polls cluster number)
  unfolding create_replica
  Gives-create_replica polls cluster number =
      let claim = there.kept_claim cluster.namespace (pod_name number) in
      let config = there.kept_config_map cluster.namespace (config_map_name number) in
      (
        Gives-first _ _ (Gives-create_pvc client there _ _ _ _ _) (λ _.
            Keeps-bind _ _ (Keeps-create_config_map client claim _ _ _ _)
              (λ _. Keeps-create_pod client claim _ _ _ _ _ _ _)),
        Gives-then _ _ (λ _.
            Gives-first _ _ (Gives-create_config_map client there _ _ _ _)
              (λ _. Keeps-create_pod client config _ _ _ _ _ _ _)),
        Gives-then _ _ (λ _. Gives-then _ _ (λ _. Gives-create_pod client there _ _ _ _ _ _ _)),
      )

  -- A loop over numbers that creates what belongs to each.
  Gives-create_replicas :
      (polls : ℕ) (cluster : MysqlCluster) (numbers : List Str) (number : Str)
      → In number numbers
      → GivesReplica cluster.namespace number
          (for_each (create_replica client polls cluster) numbers)
  Gives-create_replicas polls cluster numbers number m =
      let (claim, config, pod) = Gives-create_replica polls cluster number in
      (
        Gives-for_each _ numbers number m claim
            (Keeps-create_replica client (there.kept_claim _ _) polls cluster),
        Gives-for_each _ numbers number m config
            (Keeps-create_replica client (there.kept_config_map _ _) polls cluster),
        Gives-for_each _ numbers number m pod
            (Keeps-create_replica client (there.kept_pod _ _) polls cluster),
      )

  -- What is given for each value that a read may return is given by the read and the rest.
  GivesReplica-then :
      {A B : Type 0} (namespace number : Str) (m : Go S A) (f : A → Go S B)
      → ((a : A) → GivesReplica namespace number (f a))
      → GivesReplica namespace number (m >>= f)
  GivesReplica-then namespace number m f h =
      (Gives-then m f (λ a. (h a).0), Gives-then m f (λ a. (h a).1), Gives-then m f (λ a. (h a).2))

  pub Gives-up_to :
      {P : S → Type 0} (last : ℤ) (body : ℕ → Go S (Unit {0})) (i : ℕ)
      → In i (count_up 1 (pos_part last))
      → Gives P (body i)
      → ((k : ℕ) → Keeps P (body k))
      → Gives P (up_to last body)
  unfolding up_to
  Gives-up_to last body i m give keep =
      Gives-first _ _ (Gives-for_each body _ i m give keep)
        (λ _. Keeps-if _ _ _ (Keeps-pure tt) (Keeps-lift waiting))

  Gives-init_replicas :
      (polls : ℕ) (cluster : MysqlCluster) (i : ℕ)
      → In i (count_up 1 (pos_part cluster.spec.replicas))
      → GivesReplica cluster.namespace (show_02 i) (init_replicas client polls cluster)
  unfolding init_replicas init_config_map init_pvc init_pod
  Gives-init_replicas polls cluster i m =
      let claim = there.kept_claim cluster.namespace (pod_name (show_02 i)) in
      let config = there.kept_config_map cluster.namespace (config_map_name (show_02 i)) in
      let pod = there.kept_pod cluster.namespace (pod_name (show_02 i)) in
      (
        Gives-then _ _ (λ _.
            Gives-first _ _
              (Gives-up_to _ _ i m (Gives-create_pvc client there _ _ _ _ _)
                (Keeps-init_pvc client claim cluster))
              (λ _. Keeps-init_rest client claim polls cluster _ _ _)),
        Gives-first _ _
            (Gives-up_to _ _ i m (Gives-map_err _ _ (Gives-create_config_map client there _ _ _ _))
              (Keeps-init_config_map client config cluster))
            (λ _.
              Keeps-bind _ _ (Keeps-up_to client config _ _ (Keeps-init_pvc client config cluster))
                (λ _. Keeps-init_rest client config polls cluster _ _ _)),
        Gives-then _ _ (λ _. Gives-then _ _ (λ _.
            Gives-first _ _
              (Gives-up_to _ _ i m (Gives-map_err _ _ (Gives-create_pod client there _ _ _ _ _ _ _))
                (Keeps-init_pod client pod polls cluster))
              (λ _. Keeps-map_err _ _ (Keeps-setup_master_slave_replication client pod _ _ _)))),
      )

  GivesReplica-if :
      {A : Type 0} (namespace number : Str) (b : Bool) (e : Error) (m : Go S A)
      → GivesReplica namespace number m
      → GivesReplica namespace number (if b then raise e else m)
  GivesReplica-if namespace number true e m h = (Gives-raise e, Gives-raise e, Gives-raise e)
  GivesReplica-if namespace number false e m h = h

  -- Where objects that are read or created are there and none is taken away (Presence): when init
  -- returns without an error, there are the two services, and for each number from 1 to the
  -- replicas of the specification the ConfigMap, the volume claim and the pod.
  pub init_creates :
      (polls : ℕ) (cluster : MysqlCluster) (i : ℕ)
      → 1 ≤ i
      → i ≤ pos_part cluster.spec.replicas
      → Gives (HasService cluster.namespace cluster.spec.master_service) (init client polls cluster)
        × Gives
            (HasService cluster.namespace cluster.spec.slave_service)
            (init client polls cluster)
        × GivesReplica cluster.namespace (show_02 i) (init client polls cluster)
  unfolding init
  init_creates polls cluster i lo hi =
      let master = there.kept_service cluster.namespace cluster.spec.master_service in
      let slave = there.kept_service cluster.namespace cluster.spec.slave_service in
      (
        Gives-first _ _ (Gives-map_err _ _ (Gives-get_or_create_service client there _ _ _ _)) (λ _.
            Keeps-bind _ _ (Keeps-map_err _ _ (Keeps-get_or_create_service client master _ _ _ _))
              (λ _. Keeps-init_body client master polls cluster _ _)),
        Gives-then _ _ (λ _.
            Gives-first _ _ (Gives-map_err _ _ (Gives-get_or_create_service client there _ _ _ _))
              (λ _. Keeps-init_body client slave polls cluster _ _)),
        GivesReplica-then _ _ _ _ (λ _. GivesReplica-then _ _ _ _ (λ _.
            GivesReplica-if _ _ _ _ _
              (Gives-init_replicas polls cluster i (In-count_up 1 _ i lo (omega arith))))),
      )

  if_differs : (n r : ℤ) {A : Type 0} (x y : A) → n ≢ r → (if not (eqb_ℤ n r) then x else y) ≡ x
  if_differs n r x y ne = ground (arith, eqb_ℤ_iff n r)

  -- Where objects that are read or created are there and none is taken away (Presence): if the pods
  -- that the operator finds have its names of the numbers `ns`, and are not as many as the
  -- specification asks for, then a reconciliation that returns without an error leaves the claim,
  -- the ConfigMap and the pod of each number from 1 to the replicas that is none of `ns`, in
  -- whatever order the missing numbers are visited.
  pub reconcile_replicas_creates :
      (order : List Str → List Str) (polls : ℕ) (cluster : MysqlCluster) (n : ℤ) (ns : List ℕ)
      (k : ℕ) (s s' : S)
      → IsVisit order
      → get_actual_replica_info client cluster s ≡ (ok (n, pod_names ns), s')
      → n ≢ cluster.spec.replicas
      → 1 ≤ k
      → k ≤ pos_part cluster.spec.replicas
      → ¬ In k ns
      → Holds
          (λ _. Unit)
          (λ _ t. HasClaim cluster.namespace (pod_name (show_02 k)) t)
          (reconcile_replicas client order polls cluster s).0
          (reconcile_replicas client order polls cluster s).1
        × Holds
            (λ _. Unit)
            (λ _ t. HasConfigMap cluster.namespace (config_map_name (show_02 k)) t)
            (reconcile_replicas client order polls cluster s).0
            (reconcile_replicas client order polls cluster s).1
        × Holds
            (λ _. Unit)
            (λ _ t. HasPod cluster.namespace (pod_name (show_02 k)) t)
            (reconcile_replicas client order polls cluster s).0
            (reconcile_replicas client order polls cluster s).1
  unfolding reconcile_replicas
  reconcile_replicas_creates order polls cluster n ns k s s' visit found differ lo hi absent =
      let missing = (missing_iff order cluster.spec.replicas ns k visit).1 (lo, hi, absent) in
      let (claim, config, pod) =
        Gives-create_replicas polls cluster
          (find_missing_pod_numbers order (generate_expected_pod_numbers cluster.spec.replicas)
            (extract_pod_numbers (pod_names ns)))
          (show_02 k) missing in
      rw (bind-ok _ _ s s' _ found) (
        rw (if_differs n cluster.spec.replicas _ (pure tt) differ)
          (claim.at s' tt, config.at s' tt, pod.at s' tt))
