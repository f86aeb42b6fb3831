-- ===== src/Controller/Kept.antt =====
-- What init and the reconciliation of the replicas keep, if every call of the client keeps it.
use raft_based_mysql_cluster.Prelude.{ℕ, ℤ, Str, lit, Bool, List, if◌then◌else◌}
use raft_based_mysql_cluster.Api.{MysqlCluster}
use raft_based_mysql_cluster.Go.{Error, Go, waiting, raise, map_err, ◌>>◌}
use raft_based_mysql_cluster.Go.Keeps.{Keeps}
use raft_based_mysql_cluster.Go.Rules.{
  keeps_rules, Keeps-map_err, Keeps-for_each, Keeps-bind, Keeps-if, Keeps-raise, Keeps-pure,
  Keeps-lift,
}
use raft_based_mysql_cluster.Kube.Client.{Client}
use raft_based_mysql_cluster.Kube.Client.Laws.{AllKeep}
use raft_based_mysql_cluster.Resources.Present.{
  Keeps-create_config_map, Keeps-create_pvc, Keeps-create_pod,
}
use raft_based_mysql_cluster.Replicas.{pod_name}
use raft_based_mysql_cluster.Replication.{setup_master_slave_replication, label_pod, setup_slave}
use raft_based_mysql_cluster.Controller.{
  create_replica, up_to, init_config_map, init_pvc, init_pod, init_replicas,
}

module _ {S : Type 0} (client : Client S) {P : S → Type 0} (keep : AllKeep client P) where
  Keeps-label_pod :
      (pod_name role : Str) (cluster : MysqlCluster)
      → Keeps P (label_pod client pod_name role cluster)
  unfolding label_pod
  Keeps-label_pod pod_name role cluster = search (keeps_rules, keep.get_pod, keep.update_pod)

  Keeps-setup_slave :
      (cluster : MysqlCluster) (name : Str) → Keeps P (setup_slave client cluster name)
  unfolding setup_slave
  Keeps-setup_slave cluster name =
      search (keeps_rules, keep.get_pod, keep.run_command, Keeps-label_pod) depth 8

  pub Keeps-setup_master_slave_replication :
      (master : Str) (slaves : List Str) (cluster : MysqlCluster)
      → Keeps P (setup_master_slave_replication client master slaves cluster)
  unfolding setup_master_slave_replication
  Keeps-setup_master_slave_replication master slaves cluster =
      search (keeps_rules, keep.get_pod, keep.run_command, Keeps-label_pod, Keeps-setup_slave) depth
        10

  pub Keeps-create_replica :
      (polls : ℕ) (cluster : MysqlCluster) (number : Str)
      → Keeps P (create_replica client polls cluster number)
  unfolding create_replica
  Keeps-create_replica polls cluster number = search (
    keeps_rules,
    Keeps-create_pvc client keep,
    Keeps-create_config_map client keep,
    Keeps-create_pod client keep,
  )

  pub Keeps-init_config_map :
      (cluster : MysqlCluster) (i : ℕ) → Keeps P (init_config_map client cluster i)
  unfolding init_config_map
  Keeps-init_config_map cluster i = search (keeps_rules, Keeps-create_config_map client keep)

  pub Keeps-init_pvc : (cluster : MysqlCluster) (i : ℕ) → Keeps P (init_pvc client cluster i)
  unfolding init_pvc
  Keeps-init_pvc cluster i = search (Keeps-create_pvc client keep)

  pub Keeps-init_pod :
      (polls : ℕ) (cluster : MysqlCluster) (i : ℕ) → Keeps P (init_pod client polls cluster i)
  unfolding init_pod
  Keeps-init_pod polls cluster i = search (keeps_rules, Keeps-create_pod client keep)

  pub Keeps-up_to :
      (last : ℤ) (body : ℕ → Go S (Unit {0}))
      → ((i : ℕ) → Keeps P (body i))
      → Keeps P (up_to last body)
  unfolding up_to
  Keeps-up_to last body h =
      Keeps-bind _ _ (Keeps-for_each body _ h)
        (λ _. Keeps-if _ _ _ (Keeps-pure tt) (Keeps-lift waiting))

  pub Keeps-init_rest :
      (polls : ℕ) (cluster : MysqlCluster) (last : ℤ) (slaves : List Str) (f : Error → Error)
      → Keeps P (
          up_to last (init_pod client polls cluster)
          >> map_err f (setup_master_slave_replication client (lit "mysql-01") slaves cluster))
  Keeps-init_rest polls cluster last slaves f =
      Keeps-bind _ _ (Keeps-up_to last _ (Keeps-init_pod polls cluster))
        (λ _. Keeps-map_err _ _ (Keeps-setup_master_slave_replication _ slaves cluster))

  Keeps-init_replicas :
      (polls : ℕ) (cluster : MysqlCluster) → Keeps P (init_replicas client polls cluster)
  unfolding init_replicas
  Keeps-init_replicas polls cluster =
      Keeps-bind _ _ (Keeps-up_to _ _ (Keeps-init_config_map cluster)) (λ _.
        Keeps-bind _ _ (Keeps-up_to _ _ (Keeps-init_pvc cluster))
          (λ _. Keeps-init_rest polls cluster _ _ _))

  pub Keeps-init_body :
      (polls : ℕ) (cluster : MysqlCluster) (b : Bool) (e : Error)
      → Keeps P (if b then raise e else init_replicas client polls cluster)
  Keeps-init_body polls cluster b e =
      Keeps-if b _ _ (Keeps-raise e) (Keeps-init_replicas polls cluster)
