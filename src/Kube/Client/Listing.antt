-- ===== src/Kube/Client/Listing.antt =====
-- What a refinement of the operator relies on of the API server's lists.
use raft_based_mysql_cluster.Prelude.{Str, lit, List, ◌∷◌, map, some, ◌≡◌, In, Distinct}
use raft_based_mysql_cluster.Prelude.Assoc.{lookup}
use raft_based_mysql_cluster.Go.{ok}
use raft_based_mysql_cluster.Go.Keeps.{Ensures, Keeps}
use raft_based_mysql_cluster.Go.Turns.{Turns}
use raft_based_mysql_cluster.Kube.{Pod, ConfigMap, PersistentVolumeClaim}
use raft_based_mysql_cluster.Kube.Client.{Client}
use raft_based_mysql_cluster.Replicas.View.{SameNames}

abbrev pub names_of : List Pod → List Str
names_of found = map (λ (p : Pod). p.meta.name) found

-- The pods of a namespace with the label app=mysql, where no other pods are and nobody else creates
-- or deletes one. `pods s` are their names, in no order: while the API server is up, a list has each
-- of them once, in whatever order; a creation adds one, a read of a pod finds one of them, and all
-- other calls leave them alone.
pub record Listing {S : Type 0} (client : Client S) (namespace : Str) (Up : S → Type 0)
    : Type 1 where
  pub pods : S → List Str
  pub listed :
      (s : S)
      → Up s
      → (found : List Pod) × (client.list_pods namespace (lit "app") (lit "mysql") s
          ≡ (ok found, s))
        × SameNames (names_of found) (pods s)
        × Distinct (names_of found)
  pub read_config_map :
      (xs : List Str) (x : Str)
      → Keeps (λ s. SameNames (pods s) xs) (client.get_config_map namespace x)
  pub made_config_map :
      (xs : List Str) (o : ConfigMap)
      → Keeps (λ s. SameNames (pods s) xs) (client.create_config_map o)
  pub read_claim :
      (xs : List Str) (x : Str) → Keeps (λ s. SameNames (pods s) xs) (client.get_claim namespace x)
  pub made_claim :
      (xs : List Str) (o : PersistentVolumeClaim)
      → Keeps (λ s. SameNames (pods s) xs) (client.create_claim o)
  pub read_pod :
      (xs : List Str) (x : Str)
      → Ensures (λ s. SameNames (pods s) xs) (λ _ s. In x (pods s)) (client.get_pod namespace x)
  pub made_pod :
      (xs : List Str) (o : Pod)
      → o.meta.namespace ≡ namespace
      → lookup (lit "app") o.meta.labels ≡ some (lit "mysql")
      → Turns
          (λ s. SameNames (o.meta.name ∷ pods s) xs)
          (λ _ s. SameNames (pods s) xs)
          (client.create_pod o)
