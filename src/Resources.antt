-- ===== src/Resources.antt =====
-- internal/controller/utlis.go, the first half: the ConfigMap, the volume claim, the pod and the
-- services that the operator creates. The objects hold the quantities as the strings of the
-- specification; that resource.MustParse panics on a malformed one is `must_parse`.
pub mod Present
pub mod Working
pub mod Total
use raft_based_mysql_cluster.Prelude.{
  ℕ, zero, suc, Str, lit, str_eq, Bool, true, false, ◌&&◌, List, [], ◌∷◌, ◌++◌, ltb, length,
  if◌then◌else◌,
}
use raft_based_mysql_cluster.Prelude.Decimal.{show_ℕ}
use raft_based_mysql_cluster.Prelude.Assoc.{Assoc}
use raft_based_mysql_cluster.Api.{MysqlCluster}
use raft_based_mysql_cluster.Go.{Error, Go, pure, raise, lift, waiting, panic, ◌>>=◌, ◌>>◌, try}
use raft_based_mysql_cluster.Kube.{
  OwnerReference, ObjectMeta, ConfigMap, PersistentVolumeClaim, Container, Pod, Service,
}
use raft_based_mysql_cluster.Kube.Client.{Client}

-- The constants of mysqlcluster_controller.go.
abbrev pub mysql_password : Str
mysql_password = lit "password"

abbrev pub mysql_cluster_kind : Str
mysql_cluster_kind = lit "MysqlCluster"

abbrev pub mysql_cluster_api_version : Str
mysql_cluster_api_version = lit "apps.ryansu.com/v1"

-- The owner reference that a created object carries.
unfoldable pub owned_by : Str → MysqlCluster → List OwnerReference
owned_by api_version cluster =
    record {
      api_version = api_version;
      kind = mysql_cluster_kind;
      name = cluster.name;
      uid = cluster.uid;
      controller = true;
    }
    ∷ []

-- The text of my.cnf.
unfoldable pub my_cnf : ℕ → Str
my_cnf server_id =
    lit "[mysqld]\nserver-id="
    ++ (show_ℕ server_id
        ++ lit
            "\nbinlog_format=row\nlog-bin=mysql-bin\nskip-name-resolve\ngtid-mode=on\nenforce-gtid-consistency=true\nlog-slave-updates=1\nrelay_log_purge=0\n# other configurations")

unfoldable pub new_config_map : Str → ℕ → Str → MysqlCluster → ConfigMap
new_config_map name server_id namespace cluster = record {
  meta = record {
    name = name;
    namespace = namespace;
    labels = [];
    owner_references = owned_by mysql_cluster_api_version cluster;
  };
  content = (lit "my.cnf", my_cnf server_id) ∷ [];
}

unfoldable pub new_claim : Str → Str → Str → Str → MysqlCluster → PersistentVolumeClaim
new_claim name storage_class_name namespace storage_size cluster = record {
  meta = record {
    name = name;
    namespace = namespace;
    labels = (lit "app", lit "mysql") ∷ [];
    owner_references = owned_by (lit "database.kubebuilder.io/v1") cluster;
  };
  access_modes = lit "ReadWriteOnce" ∷ [];
  storage = storage_size;
  storage_class_name = storage_class_name;
}

unfoldable pub new_pod : Str → Str → Str → Str → Str → MysqlCluster → Pod
new_pod name image config_map_name pvc_name namespace cluster = record {
  meta = record {
    name = name;
    namespace = namespace;
    labels = (lit "app", lit "mysql") ∷ [];
    owner_references = owned_by mysql_cluster_api_version cluster;
  };
  containers =
      record {
        name = lit "mysql";
        image = image;
        resources = cluster.spec.resources;
        env = (lit "MYSQL_ROOT_PASSWORD", lit "password") ∷ [];
        port = 3306;
        mounts =
            (lit "mysql-config", lit "/etc/my.cnf") ∷ (lit "mysql-data", lit "/var/lib/mysql") ∷ [];
      }
      ∷ [];
  config_map_name = config_map_name;
  claim_name = pvc_name;
  phase = [];
  container_ready = [];
}

-- createService, which only builds the object.
unfoldable pub create_service : Str → Str → Str → MysqlCluster → Service
create_service name role namespace cluster = record {
  meta = record {
    name = name;
    namespace = namespace;
    labels = (lit "app", lit "mysql") ∷ (lit "role", role) ∷ [];
    owner_references = owned_by mysql_cluster_api_version cluster;
  };
  selector = (lit "app", lit "mysql") ∷ (lit "role", role) ∷ [];
  port = 3306;
  target_port = 3306;
  protocol = lit "TCP";
  service_type = lit "ClusterIP";
}

-- The quantities of a pod, in the order in which createPod parses them.
abbrev pub pod_quantities : MysqlCluster → List Str
pod_quantities cluster =
    let amounts = cluster.spec.resources in
    amounts.requests.cpu ∷ amounts.requests.memory ∷ amounts.limits.cpu ∷ amounts.limits.memory ∷ []

abbrev first_ready : List Bool → Bool
first_ready [] = false
first_ready (b ∷ bs) = b

-- isPodHealthy
unfoldable pub is_pod_healthy : Pod → Bool
is_pod_healthy pod =
    str_eq pod.phase (lit "Running")
    && (ltb 0 (length pod.container_ready) && first_ready pod.container_ready)

module _ {S : Type 0} (client : Client S) where
  -- resource.MustParse of each text, which panics on one that is no quantity.
  unfoldable pub must_parse : List Str → Go S (Unit {0})
  must_parse [] = pure tt
  must_parse (text ∷ texts) =
      let rest = must_parse texts in if client.is_quantity text then rest else lift panic

  -- Any error of the read counts as absence.
  unfoldable pub create_config_map : Str → ℕ → Str → MysqlCluster → Go S (Unit {0})
  create_config_map name server_id namespace cluster =
      try (client.get_config_map namespace name) (λ _. pure tt)
        λ _. client.create_config_map (new_config_map name server_id namespace cluster)

  unfoldable pub create_pvc : Str → Str → Str → Str → MysqlCluster → Go S (Unit {0})
  create_pvc name storage_class_name namespace storage_size cluster =
      try (client.get_claim namespace name) (λ _. pure tt)
        λ _.
          must_parse (storage_size ∷ [])
          >> client.create_claim (new_claim name storage_class_name namespace storage_size cluster)

  -- The loop that waits for a pod, for at most `polls` rounds.
  unfoldable pub wait_healthy : ℕ → Str → Str → Go S (Unit {0})
  wait_healthy zero namespace name = lift waiting
  wait_healthy (suc polls) namespace name =
      let again = wait_healthy polls namespace name in
      try (client.get_pod namespace name) (λ pod. if is_pod_healthy pod then pure tt else again)
        (λ _. again)

  unfoldable pub create_pod : ℕ → Str → Str → Str → Str → Str → MysqlCluster → Go S (Unit {0})
  create_pod polls name image config_map_name pvc_name namespace cluster =
      try (client.get_pod namespace name) (λ _. pure tt)
        λ _.
          must_parse (pod_quantities cluster)
          >> (client.create_pod (new_pod name image config_map_name pvc_name namespace cluster)
              >> wait_healthy polls namespace name)

  unfoldable pub get_or_create_service : Str → Str → Str → MysqlCluster → Go S Service
  get_or_create_service service_name role namespace cluster =
      try (client.get_service namespace service_name) pure λ e.
        if e.not_found
        then (let service = create_service service_name role namespace cluster in
            client.create_service service >> pure service)
        else raise e
