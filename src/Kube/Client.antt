-- ===== src/Kube/Client.antt =====
-- The API server and the pods behind it, as the operator sees them. Neither is part of the
-- repository: the calls of the client, and the execution of a command in a pod, are fields. `S` is
-- all that they depend on and change.
pub mod Laws
pub mod Listing
use raft_based_mysql_cluster.Prelude.{ℕ, List, Option, Str, Bool}
use raft_based_mysql_cluster.Prelude.Assoc.{Assoc}
use raft_based_mysql_cluster.Api.{MysqlCluster}
use raft_based_mysql_cluster.Kube.{ConfigMap, PersistentVolumeClaim, Pod, Service, Endpoints}
use raft_based_mysql_cluster.Go.{Go}

-- `is_quantity` says which texts resource.MustParse, of k8s.io/apimachinery, takes without a panic. A
-- read names its object by namespace and name; a list by namespace and one label.
pub record Client (S : Type 0) : Type 0 where
  pub is_quantity : Str → Bool
  pub get_cluster : Str → Str → Go S MysqlCluster
  pub update_cluster : MysqlCluster → Go S (Unit {0})
  pub update_cluster_status : MysqlCluster → Go S (Unit {0})
  pub get_config_map : Str → Str → Go S ConfigMap
  pub create_config_map : ConfigMap → Go S (Unit {0})
  pub update_config_map : ConfigMap → Go S (Unit {0})
  pub get_claim : Str → Str → Go S PersistentVolumeClaim
  pub create_claim : PersistentVolumeClaim → Go S (Unit {0})
  pub get_pod : Str → Str → Go S Pod
  pub list_pods : Str → Str → Str → Go S (List Pod)
  pub create_pod : Pod → Go S (Unit {0})
  pub update_pod : Pod → Go S (Unit {0})
  pub get_service : Str → Str → Go S Service
  pub create_service : Service → Go S (Unit {0})
  pub get_endpoints : Str → Str → Go S Endpoints
  pub run_command : Pod → Str → Go S Str
