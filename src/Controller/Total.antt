-- ===== src/Controller/Total.antt =====
-- init returns without an error where the API server works.
use raft_based_mysql_cluster.Prelude.{
  ℕ, zero, suc, ◌-◌, ◌≤◌, ◌<◌, pos, pos_part, ltb_ℤ, Str, lit, false, List, [], ◌∷◌, ◌≡◌, inl, inr,
  refl, arith, In, ◌^◌, max_int32, true,
}
use raft_based_mysql_cluster.Prelude.Decimal.{show_02}
use raft_based_mysql_cluster.Api.{MysqlCluster}
use raft_based_mysql_cluster.Go.{Go}
use raft_based_mysql_cluster.Go.Rules.{Gives, Gives-map_err}
use raft_based_mysql_cluster.Go.Returns.{
  Returns, Stays, Returns-bind, Returns-map_err, Returns-given, Returns-weaken, Gives-all,
  Stays-for_each, Returns-pure,
}
use raft_based_mysql_cluster.Kube.Client.{Client}
use raft_based_mysql_cluster.Kube.Client.Laws.{Presence}
use raft_based_mysql_cluster.Resources.Present.{Gives-create_pod}
use raft_based_mysql_cluster.Resources.Working.{Working, IsNumber}
use raft_based_mysql_cluster.Resources.Total.{
  create_config_map-Stays, create_pvc-Stays, create_pod-Stays, get_or_create_service-Stays,
}
use raft_based_mysql_cluster.Replicas.{pod_name}
use raft_based_mysql_cluster.Replication.{setup_master_slave_replication}
use raft_based_mysql_cluster.Replication.Total.{AllThere, IsReady, setup-IsReady}
use raft_based_mysql_cluster.Controller.{
  count_up, slave_pod_names, init_config_map, init_pvc, init_pod, init_replicas, init, up_to,
}
use raft_based_mysql_cluster.Controller.Kept.{Keeps-init_pod}
use raft_based_mysql_cluster.Controller.Roles.{master_pod}
use raft_based_mysql_cluster.Controller.Creation.{Gives-up_to}
use raft_based_mysql_cluster.Controller.Numbers.{count_up-le, count_up-lt}

module _ {S : Type 0} (client : Client S) (there : Presence client) (polls : ℕ)
    (cluster : MysqlCluster) (works : Working client there cluster) where
  init_config_map-Stays :
      (i : ℕ) → IsNumber cluster i → Stays works.Up (init_config_map client cluster i)
  unfolding init_config_map
  init_config_map-Stays i number =
      Returns-map_err _ _ _ (create_config_map-Stays client there cluster works i number)

  init_pvc-Stays : (i : ℕ) → IsNumber cluster i → Stays works.Up (init_pvc client cluster i)
  unfolding init_pvc
  init_pvc-Stays i number = create_pvc-Stays client there cluster works i number

  init_pod-Stays :
      works.boot < polls
      → (i : ℕ) → IsNumber cluster i
      → Stays works.Up (init_pod client polls cluster i)
  unfolding init_pod
  init_pod-Stays enough i number =
      Returns-map_err _ _ _ (create_pod-Stays client there cluster works polls i number enough)

  -- The loops of init end below the largest int32.
  up_to-Stays :
      {P : S → Type 0} (body : ℕ → Go S (Unit {0}))
      → pos_part cluster.spec.replicas < 2 ^ 31 - 1
      → ((i : ℕ) → IsNumber cluster i → Stays P (body i))
      → Stays P (up_to cluster.spec.replicas body)
  unfolding up_to
  up_to-Stays body fits h =
      let below : ltb_ℤ cluster.spec.replicas max_int32 ≡ true = ground arith in
      let n = pos_part cluster.spec.replicas in
      Returns-bind _ _ _ _
        (Stays-for_each body (count_up 1 n)
          (λ i m. h i (count_up-le 1 n i m, omega (arith, count_up-lt 1 n i m))))
        (λ _. rw below (Returns-pure _ tt (λ s p. p)))

  In-slaves :
      (x : Str) (is : List ℕ)
      → In x (slave_pod_names is)
      → (i : ℕ) × In i is × (x ≡ pod_name (show_02 i))
  unfolding slave_pod_names
  In-slaves x [] m = elim m [ ]
  In-slaves x (i ∷ is) (inl e) = (i, inl refl, e)
  In-slaves x (i ∷ is) (inr m) = let (k, mk, e) = In-slaves x is m in (k, inr mk, e)

  abbrev all_names : List Str
  all_names = slave_pod_names (count_up 1 (pos_part cluster.spec.replicas))

  Gives-pod :
      (i : (x : Str) × In x all_names)
      → Gives
          (there.HasPod cluster.namespace i.0)
          (up_to cluster.spec.replicas (init_pod client polls cluster))
  unfolding init_pod
  Gives-pod (x, m) =
      let (k, mk, e) = In-slaves x (count_up 1 (pos_part cluster.spec.replicas)) m in
      rw e (
        Gives-up_to client there _ _ k mk
          (Gives-map_err _ _ (Gives-create_pod client there _ _ _ _ _ _ _))
          (Keeps-init_pod client (there.kept_pod cluster.namespace (pod_name (show_02 k))) polls
            cluster))

  -- The loop over the pods leaves them all there.
  pods-Returns :
      works.boot < polls
      → pos_part cluster.spec.replicas < 2 ^ 31 - 1
      → Returns works.Up
          (λ _ s. IsReady client there cluster works all_names s)
          (up_to cluster.spec.replicas (init_pod client polls cluster))
  pods-Returns enough fits =
      Returns-given _ (AllThere client there cluster works all_names) _
        (up_to-Stays _ fits (init_pod-Stays enough))
        (Gives-all (λ (i : (x : Str) × In x all_names). there.HasPod cluster.namespace i.0) _
          Gives-pod)

  setup-Returns :
      (n : ℕ)
      → Stays (IsReady client there cluster works (slave_pod_names (count_up 1 (suc n)))) (
          setup_master_slave_replication client
            (lit "mysql-01")
            (slave_pod_names (count_up 2 n))
            cluster)
  unfolding slave_pod_names count_up
  setup-Returns n =
      setup-IsReady client there cluster works (slave_pod_names (count_up 1 (suc n)))
        (lit "mysql-01") (slave_pod_names (count_up 2 n)) (inl master_pod) (λ x m. inr m)

  setup_all :
      (k : ℕ)
      → 1 ≤ k
      → Stays (IsReady client there cluster works (slave_pod_names (count_up 1 k))) (
          setup_master_slave_replication client
            (lit "mysql-01")
            (slave_pod_names (count_up 2 (k - 1)))
            cluster)
  setup_all zero some = absurd (omega arith)
  setup_all (suc n) some = let e : suc n - 1 ≡ n = omega arith in rw e (setup-Returns n)

  init_replicas-Stays :
      works.boot < polls
      → 1 ≤ pos_part cluster.spec.replicas
      → pos_part cluster.spec.replicas < 2 ^ 31 - 1
      → Stays works.Up (init_replicas client polls cluster)
  unfolding init_replicas
  init_replicas-Stays enough some fits =
      Returns-bind _ _ _ _ (up_to-Stays _ fits init_config_map-Stays) (λ _.
        Returns-bind _ _ _ _ (up_to-Stays _ fits init_pvc-Stays) (λ _.
          Returns-bind _ _ _ _ (pods-Returns enough fits) (λ _.
            Returns-weaken _ _ _ (λ a s h. h.0)
              (Returns-map_err _ _ _ (setup_all (pos_part cluster.spec.replicas) some)))))

  -- Where the API server works and a pod is healthy after fewer rounds than are waited for, init
  -- returns without an error for any count of at least one replica, and below the largest int32.
  pub init-Stays :
      works.boot < polls
      → 1 ≤ pos_part cluster.spec.replicas
      → pos_part cluster.spec.replicas < 2 ^ 31 - 1
      → Stays works.Up (init client polls cluster)
  unfolding init
  init-Stays enough some fits =
      let test : ltb_ℤ cluster.spec.replicas (pos 1) ≡ false = ground arith in
      Returns-bind _ _ _ _
        (Returns-map_err _ _ _
          (get_or_create_service-Stays client there cluster works _ _ (inl (refl, refl))))
        (λ _.
          Returns-bind _ _ _ _
            (Returns-map_err _ _ _
              (get_or_create_service-Stays client there cluster works _ _ (inr (refl, refl))))
            (λ _. rw test (init_replicas-Stays enough some fits)))
