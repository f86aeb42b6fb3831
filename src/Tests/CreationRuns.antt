-- ===== src/Tests/CreationRuns.antt =====
-- Instances of the theorems on what the operator creates.
use raft_based_mysql_cluster.Go.{◌>>=◌, map_err, for_each, lift, raise}
use raft_based_mysql_cluster.Resources.{
  get_or_create_service, create_service, create_config_map, create_pvc, create_pod, is_pod_healthy,
  new_claim, new_config_map, new_pod, owned_by, wait_healthy, my_cnf, must_parse,
}
use raft_based_mysql_cluster.Controller.{
  init_replicas, count_up, init_config_map, init_pvc, init_pod, slave_pod_names, up_to,
}
use raft_based_mysql_cluster.Replication.{
  label_pod, master_command, setup_master_slave_replication, setup_slave, slave_command, with_role,
}
use raft_based_mysql_cluster.Prelude.Assoc.{insert}
use raft_based_mysql_cluster.Prelude.Decimal.{show_ℤ}
use raft_based_mysql_cluster.Prelude.{str_eq}
use raft_based_mysql_cluster.Prelude.{
  pos, pos_part, lit, false, List, [], ◌∷◌, ◌≡◌, inl, inr, refl, ap, arith, none,
}
use raft_based_mysql_cluster.Prelude.Assoc.{lookup}
use raft_based_mysql_cluster.Prelude.Decimal.{show_02, show_ℕ}
use raft_based_mysql_cluster.Api.{RaftState, MysqlCluster}
use raft_based_mysql_cluster.Go.{ok, pure, try}
use raft_based_mysql_cluster.Go.Keeps.{Holds}
use raft_based_mysql_cluster.Kube.{Pod}
use raft_based_mysql_cluster.Kube.Client.Laws.{Presence}
use raft_based_mysql_cluster.Replicas.{pod_name, config_map_name}
use raft_based_mysql_cluster.Replicas.Numbers.{pod_names}
use raft_based_mysql_cluster.Replication.{get_actual_replica_info}
use raft_based_mysql_cluster.Controller.{init, reconcile_replicas}
use raft_based_mysql_cluster.Controller.Creation.{reconcile_replicas_creates}
use raft_based_mysql_cluster.Reconciler.{Reconciler, Observed, is_initialized}
use raft_based_mysql_cluster.Reconciler.First.{Leaves, reconcile_creates}
use raft_based_mysql_cluster.Tests.Data.{three}
use raft_based_mysql_cluster.Tests.Store.{store, store_presence, in_order, pod_of}

abbrev empty_store : Presence (store [] (lit "40"))
empty_store = store_presence [] (lit "40")

abbrev one_pod : List Pod
one_pod = pod_of (lit "default") (lit "mysql-01") ∷ []

abbrev one_store : Presence (store one_pod (lit "40"))
one_store = store_presence one_pod (lit "40")

one_found :
    get_actual_replica_info (store one_pod (lit "40")) three []
    ≡ (ok (pos 1, pod_names (1 ∷ [])), [])
unfolding get_actual_replica_info try pure pod_name show_02 show_ℕ
one_found = refl

reconcile_replicas_example :
    Holds
      (λ _. Unit)
      (λ _ t. one_store.HasClaim (lit "default") (pod_name (show_02 2)) t)
      (reconcile_replicas (store one_pod (lit "40")) (λ l. l) 1 three []).0
      (reconcile_replicas (store one_pod (lit "40")) (λ l. l) 1 three []).1
    × Holds
        (λ _. Unit)
        (λ _ t. one_store.HasConfigMap (lit "default") (config_map_name (show_02 2)) t)
        (reconcile_replicas (store one_pod (lit "40")) (λ l. l) 1 three []).0
        (reconcile_replicas (store one_pod (lit "40")) (λ l. l) 1 three []).1
    × Holds
        (λ _. Unit)
        (λ _ t. one_store.HasPod (lit "default") (pod_name (show_02 2)) t)
        (reconcile_replicas (store one_pod (lit "40")) (λ l. l) 1 three []).0
        (reconcile_replicas (store one_pod (lit "40")) (λ l. l) 1 three []).1
reconcile_replicas_example =
    reconcile_replicas_creates (store one_pod (lit "40")) one_store (λ l. l) 1 three (pos 1)
      (1 ∷ []) 2 [] [] in_order one_found (λ e. omega (arith, ap pos_part e)) (omega arith)
      (omega arith) (λ m. elim m [ inl e ↦ omega (arith, e) | inr f ↦ f ])

abbrev pub fresh : Reconciler
fresh = record { master_gtid_snapshot = []; snapshot_enabled = false; raft_manager = none }

abbrev pub calm : Observed
calm = record {
  order = λ l. l;
  polls = 1;
  now = 1000;
  random = 7;
  current_state = RaftState.follower;
  rounds = [];
}

pub three_new : is_initialized three ≡ false
unfolding is_initialized lookup
three_new = refl

reconcile_example :
    Leaves
      (store [] (lit "40"))
      calm
      (lit "default")
      (lit "db")
      (fresh, [])
      (empty_store.HasService (lit "default") (lit "master-service"))
    × Leaves
        (store [] (lit "40"))
        calm
        (lit "default")
        (lit "db")
        (fresh, [])
        (empty_store.HasService (lit "default") (lit "slave-service"))
    × Leaves
        (store [] (lit "40"))
        calm
        (lit "default")
        (lit "db")
        (fresh, [])
        (empty_store.HasClaim (lit "default") (pod_name (show_02 2)))
    × Leaves
        (store [] (lit "40"))
        calm
        (lit "default")
        (lit "db")
        (fresh, [])
        (empty_store.HasConfigMap (lit "default") (config_map_name (show_02 2)))
    × Leaves
        (store [] (lit "40"))
        calm
        (lit "default")
        (lit "db")
        (fresh, [])
        (empty_store.HasPod (lit "default") (pod_name (show_02 2)))
unfolding pure
reconcile_example =
    reconcile_creates (store [] (lit "40")) empty_store calm three (lit "default") (lit "db") fresh
      [] [] 2 refl three_new (omega arith) (omega arith)

-- With the store above, whose pods are healthy as soon as they are created, init returns.
abbrev one_replica : MysqlCluster
one_replica = record three { spec = record three.spec { replicas = pos 1 } }

init_returns : (init (store [] (lit "40")) 1 one_replica []).0 ≡ ok tt
unfolding up_to must_parse init try pure show_02 show_ℕ config_map_name pod_name ◌>>=◌ map_err
    for_each lift raise get_or_create_service create_service create_config_map create_pvc create_pod
    is_pod_healthy new_claim new_config_map new_pod owned_by wait_healthy my_cnf init_replicas
    count_up init_config_map init_pvc init_pod slave_pod_names label_pod master_command
    setup_master_slave_replication setup_slave slave_command with_role insert show_ℤ str_eq
init_returns = refl
