-- ===== src/Resources/Total.antt =====
-- The functions of Resources return without an error where the API server works.
use raft_based_mysql_cluster.Prelude.{
  ℕ, zero, suc, ◌<◌, Str, true, List, [], ◌∷◌, ◌≡◌, refl, arith, All, if◌then◌else◌,
}
use raft_based_mysql_cluster.Prelude.Decimal.{show_02}
use raft_based_mysql_cluster.Api.{MysqlCluster}
use raft_based_mysql_cluster.Go.{Go, pure, try}
use raft_based_mysql_cluster.Go.Returns.{
  Returns, Stays, Returns-pure, Returns-bind, Returns-try, Returns-when, Returns-if,
}
use raft_based_mysql_cluster.Kube.Client.{Client}
use raft_based_mysql_cluster.Kube.Client.Laws.{Presence}
use raft_based_mysql_cluster.Replicas.{pod_name, config_map_name}
use raft_based_mysql_cluster.Resources.{
  is_pod_healthy, must_parse, create_config_map, create_pvc, wait_healthy, create_pod,
  get_or_create_service, create_service,
}
use raft_based_mysql_cluster.Resources.Working.{Working, IsNumber, IsService}

module _ {S : Type 0} (client : Client S) (there : Presence client) (cluster : MysqlCluster)
    (works : Working client there cluster) where
  open works use {Up, Starting, boot}

  must_parse-Returns :
      (P : S → Type 0) (texts : List Str)
      → All (λ t. client.is_quantity t ≡ true) texts
      → Returns P (λ _ s. P s) (must_parse client texts)
  unfolding must_parse
  must_parse-Returns P [] h = Returns-pure _ tt (λ s p. p)
  must_parse-Returns P (text ∷ texts) h = rw h.0 (must_parse-Returns P texts h.1)

  pub create_config_map-Stays :
      (i : ℕ)
      → IsNumber cluster i
      → Stays Up
          (create_config_map client (config_map_name (show_02 i)) i cluster.namespace cluster)
  unfolding create_config_map
  create_config_map-Stays i number =
      Returns-try _ _ _ _ _ _ (works.get_config_map (config_map_name (show_02 i)))
        (λ _. Returns-pure _ tt (λ s p. p)) (λ _. works.create_config_map i number)

  pub create_pvc-Stays :
      (i : ℕ)
      → IsNumber cluster i
      → Stays Up (
          create_pvc client
            (pod_name (show_02 i))
            cluster.spec.storage.storage_class_name
            cluster.namespace
            cluster.spec.storage.size
            cluster)
  unfolding create_pvc
  create_pvc-Stays i number =
      Returns-try _ _ _ _ _ _ (works.get_claim (pod_name (show_02 i)))
        (λ _. Returns-pure _ tt (λ s p. p))
        (λ _.
          Returns-bind _ _ _ _ (must_parse-Returns _ _ (works.quantities.0, tt))
            (λ _. works.create_claim i number))

  ready-Returns :
      (x : Str) (again : Go S (Unit {0}))
      → Returns
          (Starting zero x)
          (λ _ s. Up s)
          (try
            (client.get_pod cluster.namespace x)
            (λ pod. if is_pod_healthy pod then pure tt else again)
            (λ _. again))
  unfolding try pure
  ready-Returns x again = record {
    at = λ s p.
        let (pod, s', e, (healthy, up)) = (works.ready_pod x).at s p in
        (tt, s', rw e (rw healthy refl), up);
  }

  -- More rounds than the pod takes to start are enough.
  wait_healthy-Returns :
      (polls k : ℕ) (name : Str)
      → k < polls
      → Returns (Starting k name) (λ _ s. Up s) (wait_healthy client polls cluster.namespace name)
  unfolding wait_healthy
  wait_healthy-Returns zero k name h = absurd (omega arith)
  wait_healthy-Returns (suc polls) zero name h = ready-Returns name _
  wait_healthy-Returns (suc polls) (suc k) name h =
      let ih = wait_healthy-Returns polls k name (omega arith) in
      Returns-try _ _ _ _ _ _ (works.wait_pod k name)
        (λ pod.
          Returns-if Up (Starting k name) _ (is_pod_healthy pod) (pure tt) _
            (Returns-pure _ tt (λ s p. p)) ih)
        (λ _. ih)

  pub create_pod-Stays :
      (polls i : ℕ)
      → IsNumber cluster i
      → boot < polls
      → Stays Up (
          create_pod client polls
            (pod_name (show_02 i))
            cluster.spec.image
            (config_map_name (show_02 i))
            (pod_name (show_02 i))
            cluster.namespace
            cluster)
  unfolding create_pod
  create_pod-Stays polls i number enough =
      Returns-try _ _ _ _ _ _ (works.get_pod (pod_name (show_02 i)))
        (λ _. Returns-pure _ tt (λ s p. p))
        (λ _. Returns-bind _ _ _ _ (must_parse-Returns _ _ works.quantities.1) (λ _.
          Returns-bind _ _ _ _ (works.create_pod i number)
            (λ _. wait_healthy-Returns polls boot (pod_name (show_02 i)) enough)))

  pub get_or_create_service-Stays :
      (x role : Str)
      → IsService cluster x role
      → Stays Up (get_or_create_service client x role cluster.namespace cluster)
  unfolding get_or_create_service
  get_or_create_service-Stays x role m =
      Returns-try _ _ _ _ _ _ (works.get_service x) (λ service. Returns-pure _ service (λ s p. p))
        (λ e.
          let service = create_service x role cluster.namespace cluster in
          Returns-when _ e.not_found _ _ (
            Returns-bind _ _ _ _ (works.create_service x role m)
              (λ _. Returns-pure _ service (λ s p. p))))
