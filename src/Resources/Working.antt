-- ===== src/Resources/Working.antt =====
-- What it means that the API server and the pods work for one cluster: reads are up to date and
-- answer, and fail for what is not there; an object of the cluster's specification can be created
-- where there is none of its name; a pod that was created is healthy after some rounds of asking.
use raft_based_mysql_cluster.Prelude.{
  ℕ, zero, suc, ◌≤◌, pos_part, Str, lit, true, false, ◌∷◌, ◌≡◌, ◌⊎◌, All,
}
use raft_based_mysql_cluster.Prelude.Assoc.{insert}
use raft_based_mysql_cluster.Prelude.Decimal.{show_02}
use raft_based_mysql_cluster.Api.{MysqlCluster}
use raft_based_mysql_cluster.Kube.{Pod}
use raft_based_mysql_cluster.Go.Returns.{Returns, Answers}
use raft_based_mysql_cluster.Kube.Client.{Client}
use raft_based_mysql_cluster.Kube.Client.Laws.{Presence}
use raft_based_mysql_cluster.Replicas.{pod_name, config_map_name}
use raft_based_mysql_cluster.Replication.{with_role, master_command, slave_command}
use raft_based_mysql_cluster.Resources.{
  is_pod_healthy, new_config_map, new_claim, new_pod, create_service, pod_quantities,
}

-- The numbers of the cluster's pods.
abbrev pub IsNumber : MysqlCluster → ℕ → Type 0
IsNumber cluster i = (1 ≤ i) × (i ≤ pos_part cluster.spec.replicas)

abbrev pub IsRole : Str → Type 0
IsRole role = (role ≡ lit "master") ⊎ (role ≡ lit "slave")

abbrev pub IsCommand : MysqlCluster → Str → Type 0
IsCommand cluster cmd = (cmd ≡ master_command) ⊎ (cmd ≡ slave_command cluster.spec.master_service)

-- The services of the cluster, with the role of the pods behind them.
abbrev pub IsService : MysqlCluster → Str → Str → Type 0
IsService cluster x role =
    ((x ≡ cluster.spec.master_service) × (role ≡ lit "master"))
    ⊎ ((x ≡ cluster.spec.slave_service) × (role ≡ lit "slave"))

-- `Up s`: the API server answers, and the cluster's pods that are there run. `Starting k x s`: the
-- pod `x` was created, and is healthy after `k` more reads at the latest, some of which may fail.
-- `Fresh p s`: the pod was read and has not been written since.
pub record Working {S : Type 0} (client : Client S) (there : Presence client)
    (cluster : MysqlCluster) : Type 1 where
  pub Up : S → Type 0
  pub Starting : ℕ → Str → S → Type 0
  pub Fresh : Pod → S → Type 0
  pub boot : ℕ
  pub quantities :
      All (λ t. client.is_quantity t ≡ true) (cluster.spec.storage.size ∷ pod_quantities cluster)
  pub get_config_map :
      (x : Str)
      → Answers Up
          (λ _ s. Up s)
          (λ _ s. Up s × (¬ there.HasConfigMap cluster.namespace x s))
          (client.get_config_map cluster.namespace x)
  pub create_config_map :
      (i : ℕ)
      → IsNumber cluster i
      → Returns
          (λ s. Up s × (¬ there.HasConfigMap cluster.namespace (config_map_name (show_02 i)) s))
          (λ _ s. Up s)
          (client.create_config_map
            (new_config_map (config_map_name (show_02 i)) i cluster.namespace cluster))
  pub get_claim :
      (x : Str)
      → Answers Up
          (λ _ s. Up s)
          (λ _ s. Up s × (¬ there.HasClaim cluster.namespace x s))
          (client.get_claim cluster.namespace x)
  pub create_claim :
      (i : ℕ)
      → IsNumber cluster i
      → Returns
          (λ s. Up s × (¬ there.HasClaim cluster.namespace (pod_name (show_02 i)) s))
          (λ _ s. Up s)
          (client.create_claim (
            new_claim
              (pod_name (show_02 i))
              cluster.spec.storage.storage_class_name
              cluster.namespace
              cluster.spec.storage.size
              cluster))
  pub get_service :
      (x : Str)
      → Answers Up
          (λ _ s. Up s)
          (λ e s. (e.not_found ≡ true) × (Up s × (¬ there.HasService cluster.namespace x s)))
          (client.get_service cluster.namespace x)
  pub create_service :
      (x role : Str)
      → IsService cluster x role
      → Returns
          (λ s. Up s × (¬ there.HasService cluster.namespace x s))
          (λ _ s. Up s)
          (client.create_service (create_service x role cluster.namespace cluster))
  pub get_pod :
      (x : Str)
      → Answers Up
          (λ _ s. Up s)
          (λ _ s. Up s × (¬ there.HasPod cluster.namespace x s))
          (client.get_pod cluster.namespace x)
  pub get_pod_there :
      (x : Str)
      → Returns
          (λ s. Up s × there.HasPod cluster.namespace x s)
          (λ p s. ((p.meta.namespace ≡ cluster.namespace) × (p.meta.name ≡ x)) × (Fresh p s × Up s))
          (client.get_pod cluster.namespace x)
  pub create_pod :
      (i : ℕ)
      → IsNumber cluster i
      → Returns
          (λ s. Up s × (¬ there.HasPod cluster.namespace (pod_name (show_02 i)) s))
          (λ _ s. Starting boot (pod_name (show_02 i)) s)
          (client.create_pod (
            new_pod
              (pod_name (show_02 i))
              cluster.spec.image
              (config_map_name (show_02 i))
              (pod_name (show_02 i))
              cluster.namespace
              cluster))
  pub wait_pod :
      (k : ℕ) (x : Str)
      → Answers
          (Starting (suc k) x)
          (λ p s.
            ((is_pod_healthy p ≡ true) × Up s) ⊎ ((is_pod_healthy p ≡ false) × Starting k x s))
          (λ _ s. Starting k x s)
          (client.get_pod cluster.namespace x)
  pub ready_pod :
      (x : Str)
      → Returns
          (Starting zero x)
          (λ p s. (is_pod_healthy p ≡ true) × Up s)
          (client.get_pod cluster.namespace x)
  -- Nobody else writes a pod between its read and its update.
  pub update_pod :
      (p : Pod) (role : Str)
      → IsRole role
      → Returns (λ s. Up s × Fresh p s) (λ _ s. Up s) (client.update_pod (with_role role p))
  pub run_command :
      (p : Pod) (x cmd : Str)
      → p.meta.namespace ≡ cluster.namespace
      → p.meta.name ≡ x
      → IsCommand cluster cmd
      → Returns
          (λ s. Up s × there.HasPod cluster.namespace x s)
          (λ _ s. Up s)
          (client.run_command p cmd)
  -- The one update of the cluster, which nobody else has written since it was read.
  pub update_cluster :
      Returns Up
        (λ _ s. Unit)
        (client.update_cluster (record cluster {
          annotations = insert (lit "initialized") (lit "true") cluster.annotations;
        }))
