-- ===== src/Replication/Total.antt =====
-- The setup of the replication returns without an error where the API server works and the pods are
-- there.
use raft_based_mysql_cluster.Prelude.{Str, List, [], ◌∷◌, inl, inr, refl, In, ◌≡◌}
use raft_based_mysql_cluster.Api.{MysqlCluster}
use raft_based_mysql_cluster.Go.{Go, for_each}
use raft_based_mysql_cluster.Go.Keeps.{Keeps}
use raft_based_mysql_cluster.Go.Returns.{
  Stays, Returns-pure, Returns-bind, Returns-map_err, Returns-from, Returns-kept, Keeps-all,
  Returns, Returns-weaken, Returns-know,
}
use raft_based_mysql_cluster.Kube.{Pod}
use raft_based_mysql_cluster.Kube.Client.{Client}
use raft_based_mysql_cluster.Kube.Client.Laws.{Presence}
use raft_based_mysql_cluster.Resources.Working.{Working, IsRole, IsCommand}
use raft_based_mysql_cluster.Replication.{
  with_role, label_pod, setup_slave, setup_master_slave_replication,
}

module _ {S : Type 0} (client : Client S) (there : Presence client) (cluster : MysqlCluster)
    (works : Working client there cluster) (names : List Str) where
  -- All pods of the names are there.
  abbrev pub AllThere : S → Type 0
  AllThere s = (i : (x : Str) × In x names) → there.HasPod cluster.namespace i.0 s

  abbrev pub IsReady : S → Type 0
  IsReady s = works.Up s × AllThere s

  kept-IsReady :
      {A : Type 0} {P : S → Type 0} (m : Go S A)
      → ((n x : Str) → Keeps (there.HasPod n x) m)
      → Returns P (λ _ s. works.Up s) m
      → Returns (λ s. P s × AllThere s) (λ _ s. IsReady s) m
  kept-IsReady m keep h = Returns-kept _ AllThere m h (
      Keeps-all (λ (i : (x : Str) × In x names). there.HasPod cluster.namespace i.0) m
        (λ i. keep cluster.namespace i.0))

  -- What is known of a pod that was read.
  abbrev IsRead : Str → Pod → Type 0
  IsRead x pod = (pod.meta.namespace ≡ cluster.namespace) × (pod.meta.name ≡ x)

  get_pod-IsReady :
      (x : Str)
      → In x names
      → Returns IsReady
          (λ pod s. IsRead x pod × (works.Fresh pod s × IsReady s))
          (client.get_pod cluster.namespace x)
  get_pod-IsReady x m =
      Returns-weaken _ _ _ (λ pod s ((known, (fresh, up)), all). (known, (fresh, (up, all))))
        (Returns-from _ _ _ (λ s (up, all). ((up, all (x, m)), all))
          (Returns-kept _ AllThere _ (works.get_pod_there x) (
            Keeps-all (λ (i : (x : Str) × In x names). there.HasPod cluster.namespace i.0) _
              (λ i. (there.kept_pod cluster.namespace i.0).get_pod cluster.namespace x))))

  label_pod-IsReady :
      (x role : Str) → In x names → IsRole role → Stays IsReady (label_pod client x role cluster)
  unfolding label_pod
  label_pod-IsReady x role m is =
      Returns-bind _ _ _ _ (Returns-map_err _ _ _ (get_pod-IsReady x m)) (λ pod.
        Returns-map_err _ _ _ (
          Returns-from _ _ _ (λ s (known, (fresh, (up, all))). ((up, fresh), all))
            (kept-IsReady _ (λ n y. (there.kept_pod n y).update_pod (with_role role pod))
              (works.update_pod pod role is))))

  run-IsReady :
      (x : Str) (pod : Pod) (cmd : Str)
      → In x names
      → IsRead x pod
      → IsCommand cluster cmd
      → Returns IsReady (λ _ s. IsReady s) (client.run_command pod cmd)
  run-IsReady x pod cmd m (e, f) is =
      Returns-from _ _ _ (λ s (up, all). ((up, all (x, m)), all))
        (kept-IsReady _ (λ n y. (there.kept_pod n y).run_command pod cmd)
          (works.run_command pod x cmd e f is))

  setup_slave-IsReady : (x : Str) → In x names → Stays IsReady (setup_slave client cluster x)
  unfolding setup_slave
  setup_slave-IsReady x m =
      Returns-bind _ _ _ _ (Returns-map_err _ _ _ (get_pod-IsReady x m)) (λ pod.
        Returns-know _ _ (λ known.
          Returns-from _ _ _ (λ s (fresh, ready). ready)
            (Returns-bind _ _ _ _ (Returns-map_err _ _ _ (run-IsReady x pod _ m known (inr refl)))
              (λ _. Returns-map_err _ _ _ (label_pod-IsReady x _ m (inr refl))))))

  setup_slaves-IsReady :
      (slaves : List Str)
      → ((x : Str) → In x slaves → In x names)
      → Stays IsReady (for_each (setup_slave client cluster) slaves)
  unfolding for_each
  setup_slaves-IsReady [] sub = Returns-pure _ tt (λ s p. p)
  setup_slaves-IsReady (x ∷ slaves) sub =
      Returns-bind _ _ _ _ (setup_slave-IsReady x (sub x (inl refl)))
        (λ _. setup_slaves-IsReady slaves (λ y m. sub y (inr m)))

  pub setup-IsReady :
      (master : Str) (slaves : List Str)
      → In master names
      → ((x : Str) → In x slaves → In x names)
      → Stays IsReady (setup_master_slave_replication client master slaves cluster)
  unfolding setup_master_slave_replication
  setup-IsReady master slaves m sub =
      Returns-bind _ _ _ _ (Returns-map_err _ _ _ (get_pod-IsReady master m)) (λ pod.
        Returns-know _ _ (λ known.
          Returns-from _ _ _ (λ s (fresh, ready). ready)
            (Returns-bind _ _ _ _ (Returns-map_err _ _ _ (label_pod-IsReady master _ m (inl refl)))
              (λ _.
                Returns-bind _ _ _ _
                  (Returns-map_err _ _ _ (run-IsReady master pod _ m known (inl refl)))
                  (λ _. setup_slaves-IsReady slaves sub)))))
