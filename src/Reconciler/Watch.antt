-- ===== src/Reconciler/Watch.antt =====
-- Which events lead to a call of Reconcile.
use raft_based_mysql_cluster.Prelude.{Str, lit, true, List, [], ◌≡◌, inl, refl, In}
use raft_based_mysql_cluster.Api.{MysqlCluster}
use raft_based_mysql_cluster.Go.{ok}
use raft_based_mysql_cluster.Kube.{OwnerReference, ObjectMeta}
use raft_based_mysql_cluster.Resources.{owned_by, new_pod}
use raft_based_mysql_cluster.Replication.{with_role}
use raft_based_mysql_cluster.Reconciler.{Watches, setup_with_manager, group_version}

-- The requests, as namespace and name, that controller-runtime makes of an event of an object: For
-- asks for an object of the kind itself, and Owns for the controller of an object of an owned kind,
-- if it has the API version and the kind of the objects that are reconciled. (controller-runtime
-- compares the group of the API version and not the version, so it makes these requests too.)
pub record Requests : Type 0 where
  pub of_event : Watches → Str → ObjectMeta → List (Str × Str)
  pub own : (w : Watches) (o : ObjectMeta) → In (o.namespace, o.name) (of_event w w.kind o)
  pub controller :
      (w : Watches) (kind : Str) (o : ObjectMeta) (owner : OwnerReference)
      → In kind w.owned_kinds
      → In owner o.owner_references
      → owner.controller ≡ true
      → owner.api_version ≡ w.api_version
      → owner.kind ≡ w.kind
      → In (o.namespace, owner.name) (of_event w kind o)

-- The watches that a registration is asked for.
abbrev pub registered : Watches
registered = (setup_with_manager {S = Watches} (λ w s. (ok tt, w)) no_watches).1
  where
    no_watches : Watches
    no_watches = record { api_version = []; kind = []; owned_kinds = [] }

-- An event of a pod that createPod makes for a cluster asks for a reconciliation of this cluster,
-- also after labelPod has given the pod a role: the requests are made as controller-runtime
-- documents it (Requests), for the kinds that SetupWithManager names and the API version that the
-- scheme has for MysqlCluster.
pub pod_event-asks :
    (requests : Requests) (x image config_map_name pvc_name role : Str) (cluster : MysqlCluster)
    → let pod = new_pod x image config_map_name pvc_name cluster.namespace cluster in
      In (cluster.namespace, cluster.name) (requests.of_event registered (lit "Pod") pod.meta)
      × In
          (cluster.namespace, cluster.name)
          (requests.of_event registered (lit "Pod") (with_role role pod).meta)
unfolding setup_with_manager new_pod with_role owned_by group_version
pod_event-asks requests x image config_map_name pvc_name role cluster =
    let pod = new_pod x image config_map_name pvc_name cluster.namespace cluster in
    (
      requests.controller registered (lit "Pod") pod.meta _ (inl refl) (inl refl) refl refl refl,
      requests.controller registered (lit "Pod") (with_role role pod).meta _ (inl refl) (inl refl)
          refl refl refl,
    )
