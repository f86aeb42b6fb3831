-- ===== src/Kube/Client/Laws.antt =====
-- What the operator's theorems rely on of the API server: that an object which was read or created
-- is there, and that no call of the operator's client takes one away.
use raft_based_mysql_cluster.Prelude.{Str}
use raft_based_mysql_cluster.Api.{MysqlCluster}
use raft_based_mysql_cluster.Kube.{ConfigMap, PersistentVolumeClaim, Pod, Service}
use raft_based_mysql_cluster.Go.Keeps.{Ensures, Keeps}
use raft_based_mysql_cluster.Kube.Client.{Client}

-- Every call of the client keeps `P`.
pub record AllKeep {S : Type 0} (client : Client S) (P : S → Type 0) : Type 0 where
  pub get_cluster : (n x : Str) → Keeps P (client.get_cluster n x)
  pub update_cluster : (o : MysqlCluster) → Keeps P (client.update_cluster o)
  pub update_cluster_status : (o : MysqlCluster) → Keeps P (client.update_cluster_status o)
  pub get_config_map : (n x : Str) → Keeps P (client.get_config_map n x)
  pub create_config_map : (o : ConfigMap) → Keeps P (client.create_config_map o)
  pub update_config_map : (o : ConfigMap) → Keeps P (client.update_config_map o)
  pub get_claim : (n x : Str) → Keeps P (client.get_claim n x)
  pub create_claim : (o : PersistentVolumeClaim) → Keeps P (client.create_claim o)
  pub get_pod : (n x : Str) → Keeps P (client.get_pod n x)
  pub list_pods : (n k v : Str) → Keeps P (client.list_pods n k v)
  pub create_pod : (o : Pod) → Keeps P (client.create_pod o)
  pub update_pod : (o : Pod) → Keeps P (client.update_pod o)
  pub get_service : (n x : Str) → Keeps P (client.get_service n x)
  pub create_service : (o : Service) → Keeps P (client.create_service o)
  pub get_endpoints : (n x : Str) → Keeps P (client.get_endpoints n x)
  pub run_command : (o : Pod) (cmd : Str) → Keeps P (client.run_command o cmd)

abbrev pub Anything : {S : Type 0} → S → Type 0
Anything s = Unit

-- `Has… s namespace name` says that the object is in the cluster in the state `s`.
pub record Presence {S : Type 0} (client : Client S) : Type 1 where
  pub HasConfigMap : Str → Str → S → Type 0
  pub HasClaim : Str → Str → S → Type 0
  pub HasPod : Str → Str → S → Type 0
  pub HasService : Str → Str → S → Type 0
  pub read_config_map :
      (n x : Str) → Ensures Anything (λ _. HasConfigMap n x) (client.get_config_map n x)
  pub made_config_map :
      (o : ConfigMap)
      → Ensures Anything
          (λ _. HasConfigMap o.meta.namespace o.meta.name)
          (client.create_config_map o)
  pub read_claim : (n x : Str) → Ensures Anything (λ _. HasClaim n x) (client.get_claim n x)
  pub made_claim :
      (o : PersistentVolumeClaim)
      → Ensures Anything (λ _. HasClaim o.meta.namespace o.meta.name) (client.create_claim o)
  pub read_pod : (n x : Str) → Ensures Anything (λ _. HasPod n x) (client.get_pod n x)
  pub made_pod :
      (o : Pod) → Ensures Anything (λ _. HasPod o.meta.namespace o.meta.name) (client.create_pod o)
  pub read_service : (n x : Str) → Ensures Anything (λ _. HasService n x) (client.get_service n x)
  pub made_service :
      (o : Service)
      → Ensures Anything (λ _. HasService o.meta.namespace o.meta.name) (client.create_service o)
  pub kept_config_map : (n x : Str) → AllKeep client (HasConfigMap n x)
  pub kept_claim : (n x : Str) → AllKeep client (HasClaim n x)
  pub kept_pod : (n x : Str) → AllKeep client (HasPod n x)
  pub kept_service : (n x : Str) → AllKeep client (HasService n x)
