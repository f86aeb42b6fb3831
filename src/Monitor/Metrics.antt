-- ===== src/Monitor/Metrics.antt =====
-- updateMetricsConfigMap and createOrUpdateConfigMap of the monitor.
use raft_based_mysql_cluster.Prelude.{Str, lit, [], ◌∷◌, ◌++◌}
use raft_based_mysql_cluster.Prelude.Assoc.{Assoc}
use raft_based_mysql_cluster.Api.{MysqlCluster}
use raft_based_mysql_cluster.Go.{Go, pure, ◌>>=◌, try}
use raft_based_mysql_cluster.Go.Rules.{Gives, Gives-try, Gives-first, Keeps-pure}
use raft_based_mysql_cluster.Kube.{ConfigMap}
use raft_based_mysql_cluster.Kube.Client.{Client}
use raft_based_mysql_cluster.Kube.Client.Laws.{Presence}
use raft_based_mysql_cluster.Monitor.{RaftMetrics, metrics_data}

unfoldable pub metrics_config_map : Str → Assoc Str → MysqlCluster → ConfigMap
metrics_config_map name content cluster = record {
  meta = record {
    name = name;
    namespace = cluster.namespace;
    labels =
        (lit "app", lit "mysql-cluster")
        ∷ (lit "cluster", cluster.name)
        ∷ (lit "type", lit "raft-metrics")
        ∷ [];
    owner_references = [];
  };
  content = content;
}

module _ {S : Type 0} (client : Client S) where
  -- createOrUpdateConfigMap: any error of the creation is taken for a ConfigMap that exists.
  unfoldable pub create_or_update_config_map : Str → Assoc Str → MysqlCluster → Go S (Unit {0})
  create_or_update_config_map name content cluster =
      try (client.create_config_map (metrics_config_map name content cluster)) (λ _. pure tt)
        λ _. (do
          existing ← client.get_config_map cluster.namespace name
          client.update_config_map (record existing { content = content }))

  -- updateMetricsConfigMap, whose error is logged.
  unfoldable pub update_metrics_config_map : Str → RaftMetrics → MysqlCluster → Go S (Unit {0})
  update_metrics_config_map stamp metrics cluster =
      try
        (create_or_update_config_map (cluster.name ++ lit "-raft-metrics")
          (metrics_data stamp metrics) cluster)
        (λ _. pure tt) (λ _. pure tt)

  -- Where objects that are read or created are there and none is taken away (Presence): if
  -- createOrUpdateConfigMap returns without an error, the ConfigMap is there.
  pub create_or_update-Gives :
      (there : Presence client) (name : Str) (content : Assoc Str) (cluster : MysqlCluster)
      → Gives
          (there.HasConfigMap cluster.namespace name)
          (create_or_update_config_map name content cluster)
  unfolding create_or_update_config_map metrics_config_map
  create_or_update-Gives there name content cluster =
      let keep = there.kept_config_map cluster.namespace name in
      Gives-try _ _ _ (there.made_config_map (metrics_config_map name content cluster))
        (λ _. Keeps-pure tt)
        (λ _.
          Gives-first _ _ (there.read_config_map cluster.namespace name)
            (λ existing. keep.update_config_map (record existing { content = content })))
