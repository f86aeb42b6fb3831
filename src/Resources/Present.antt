-- ===== src/Resources/Present.antt =====
-- What the functions of Resources leave in the cluster, whatever was there before.
use raft_based_mysql_cluster.Prelude.{ℕ, zero, suc, Str, List, [], ◌∷◌}
use raft_based_mysql_cluster.Api.{MysqlCluster}
use raft_based_mysql_cluster.Go.{waiting, panic}
use raft_based_mysql_cluster.Go.Keeps.{Keeps}
use raft_based_mysql_cluster.Go.Rules.{
  Gives, keeps_rules, Keeps-try, Keeps-pure, Keeps-if, Keeps-lift, Gives-try, Gives-first,
  Gives-then, Gives-raise, Gives-if,
}
use raft_based_mysql_cluster.Kube.Client.{Client}
use raft_based_mysql_cluster.Kube.Client.Laws.{AllKeep, Presence}
use raft_based_mysql_cluster.Resources.{
  must_parse, create_config_map, create_pvc, wait_healthy, create_pod, get_or_create_service,
  new_config_map, new_claim, new_pod, create_service,
}

module _ {S : Type 0} (client : Client S) {P : S → Type 0} (keep : AllKeep client P) where
  pub Keeps-create_config_map :
      (name : Str) (server_id : ℕ) (namespace : Str) (cluster : MysqlCluster)
      → Keeps P (create_config_map client name server_id namespace cluster)
  unfolding create_config_map
  Keeps-create_config_map name server_id namespace cluster =
      search (keeps_rules, keep.get_config_map, keep.create_config_map)

  Keeps-must_parse : (texts : List Str) → Keeps P (must_parse client texts)
  unfolding must_parse
  Keeps-must_parse [] = Keeps-pure tt
  Keeps-must_parse (text ∷ texts) = Keeps-if _ _ _ (Keeps-must_parse texts) (Keeps-lift panic)

  pub Keeps-create_pvc :
      (name storage_class_name namespace storage_size : Str) (cluster : MysqlCluster)
      → Keeps P (create_pvc client name storage_class_name namespace storage_size cluster)
  unfolding create_pvc
  Keeps-create_pvc name storage_class_name namespace storage_size cluster =
      search (keeps_rules, keep.get_claim, keep.create_claim, Keeps-must_parse)

  Keeps-wait_healthy :
      (polls : ℕ) (namespace name : Str) → Keeps P (wait_healthy client polls namespace name)
  unfolding wait_healthy
  Keeps-wait_healthy zero namespace name = Keeps-lift waiting
  Keeps-wait_healthy (suc polls) namespace name =
      let ih = Keeps-wait_healthy polls namespace name in
      Keeps-try _ _ _ (keep.get_pod namespace name) (λ _. Keeps-if _ _ _ (Keeps-pure tt) ih)
        (λ _. ih)

  pub Keeps-create_pod :
      (polls : ℕ) (name image config_map_name pvc_name namespace : Str) (cluster : MysqlCluster)
      → Keeps P (create_pod client polls name image config_map_name pvc_name namespace cluster)
  unfolding create_pod
  Keeps-create_pod polls name image config_map_name pvc_name namespace cluster =
      search (keeps_rules, keep.get_pod, keep.create_pod, Keeps-wait_healthy, Keeps-must_parse)
        depth 8

  pub Keeps-get_or_create_service :
      (service_name role namespace : Str) (cluster : MysqlCluster)
      → Keeps P (get_or_create_service client service_name role namespace cluster)
  unfolding get_or_create_service
  Keeps-get_or_create_service service_name role namespace cluster =
      search (keeps_rules, keep.get_service, keep.create_service)

module _ {S : Type 0} (client : Client S) (there : Presence client) where
  open there use {HasConfigMap, HasClaim, HasPod, HasService}

  pub Gives-create_config_map :
      (name : Str) (server_id : ℕ) (namespace : Str) (cluster : MysqlCluster)
      → Gives
          (HasConfigMap namespace name)
          (create_config_map client name server_id namespace cluster)
  unfolding create_config_map
  Gives-create_config_map name server_id namespace cluster =
      Gives-try _ _ _ (there.read_config_map namespace name) (λ _. Keeps-pure tt)
        λ _.
          unfold new_config_map in
          there.made_config_map (new_config_map name server_id namespace cluster)

  pub Gives-create_pvc :
      (name storage_class_name namespace storage_size : Str) (cluster : MysqlCluster)
      → Gives
          (HasClaim namespace name)
          (create_pvc client name storage_class_name namespace storage_size cluster)
  unfolding create_pvc
  Gives-create_pvc name storage_class_name namespace storage_size cluster =
      Gives-try _ _ _ (there.read_claim namespace name) (λ _. Keeps-pure tt)
        λ _. Gives-then _ _ (λ _.
          unfold new_claim in
          there.made_claim (new_claim name storage_class_name namespace storage_size cluster))

  pub Gives-create_pod :
      (polls : ℕ) (name image config_map_name pvc_name namespace : Str) (cluster : MysqlCluster)
      → Gives
          (HasPod namespace name)
          (create_pod client polls name image config_map_name pvc_name namespace cluster)
  unfolding create_pod
  Gives-create_pod polls name image config_map_name pvc_name namespace cluster =
      Gives-try _ _ _ (there.read_pod namespace name) (λ _. Keeps-pure tt)
        λ _. Gives-then _ _ (λ _.
          Gives-first _ _
            (unfold new_pod in
              there.made_pod (new_pod name image config_map_name pvc_name namespace cluster))
            (λ _. Keeps-wait_healthy client (there.kept_pod namespace name) polls namespace name))

  pub Gives-get_or_create_service :
      (service_name role namespace : Str) (cluster : MysqlCluster)
      → Gives
          (HasService namespace service_name)
          (get_or_create_service client service_name role namespace cluster)
  unfolding get_or_create_service
  Gives-get_or_create_service service_name role namespace cluster =
      Gives-try _ _ _ (there.read_service namespace service_name) (λ _. Keeps-pure _)
        λ e.
          Gives-if _ _ _
            (Gives-first
              (client.create_service (create_service service_name role namespace cluster)) _
              (unfold create_service in
                there.made_service (create_service service_name role namespace cluster))
              (λ _. Keeps-pure _))
            (Gives-raise e)
