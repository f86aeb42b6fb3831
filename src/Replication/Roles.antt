-- ===== src/Replication/Roles.antt =====
-- The roles of the pods after the replication is set up.
use raft_based_mysql_cluster.Prelude.{
  Str, lit, List, [], ◌∷◌, some, ◌≡◌, ◌≢◌, inl, inr, refl, In, Distinct, ◌∙◌, str_eq_refl,
}
use raft_based_mysql_cluster.Prelude.Assoc.{Assoc, lookup, insert, lookup-insert}
use raft_based_mysql_cluster.Api.{MysqlCluster}
use raft_based_mysql_cluster.Go.{Result, ok, err, waiting, panic, Go, for_each}
use raft_based_mysql_cluster.Go.Keeps.{Holds, Ensures, Keeps, Always, Ensures-bind, Ensures-map_err}
use raft_based_mysql_cluster.Go.Rules.{
  Gives, Keeps-pure, Keeps-bind, Keeps-map_err, Gives-first, Gives-then, Gives-map_err,
}
use raft_based_mysql_cluster.Kube.{Pod}
use raft_based_mysql_cluster.Kube.Client.{Client}
use raft_based_mysql_cluster.Kube.Client.Laws.{Anything}
use raft_based_mysql_cluster.Replication.{
  with_role, label_pod, setup_slave, setup_master_slave_replication,
}

-- What the theorems rely on of the API server while nobody else writes the labels: a pod is read
-- under its name, an update writes the labels, and a call for one pod leaves the others' alone.
-- `HasRole n x r s` says that the pod `x` of the namespace `n` has the role `r` in the state `s`.
pub record Roles {S : Type 0} (client : Client S) : Type 1 where
  pub HasRole : Str → Str → Str → S → Type 0
  pub read_pod :
      (n x : Str)
      → Ensures Anything
          (λ (p : Pod) _. (p.meta.namespace ≡ n) × (p.meta.name ≡ x))
          (client.get_pod n x)
  pub updated :
      (o : Pod) (role : Str)
      → lookup (lit "role") o.meta.labels ≡ some role
      → Ensures Anything (λ _. HasRole o.meta.namespace o.meta.name role) (client.update_pod o)
  pub kept_read : (n x r m y : Str) → Keeps (HasRole n x r) (client.get_pod m y)
  pub kept_run :
      (n x r : Str) (o : Pod) (cmd : Str) → Keeps (HasRole n x r) (client.run_command o cmd)
  pub kept_update :
      (n x r : Str) (o : Pod) → x ≢ o.meta.name → Keeps (HasRole n x r) (client.update_pod o)

pub lookup_role :
    (role : Str) (labels : Assoc Str)
    → lookup (lit "role") (insert (lit "role") role labels) ≡ some role
lookup_role role labels =
    rw (lookup-insert (lit "role") (lit "role") role labels, str_eq_refl (lit "role")) refl

both :
    {S A : Type 0} (P : S → Type 0) (Q : A → S → Type 0) (m : Go S A)
    → Keeps P m
    → Ensures Anything Q m
    → Ensures P Q m
both {S = S} {A = A} P Q m hp hq = record {
  at = λ s p. go (m s).0 (m s).1 (hp.at s p) (hq.at s tt);
}
  where
    go : (r : Result A) (s : S) → Holds P Always r s → Holds Anything Q r s → Holds P Q r s
    go (ok a) s (p, _) (_, q) = (p, q)
    go (err e) s p q = p
    go waiting s p q = p
    go panic s p q = p

module _ {S : Type 0} (client : Client S) (roles : Roles client) (cluster : MysqlCluster) where
  Gives-update :
      (name role : Str) (pod : Pod)
      → (pod.meta.namespace ≡ cluster.namespace) × (pod.meta.name ≡ name)
      → Gives (roles.HasRole cluster.namespace name role) (client.update_pod (with_role role pod))
  unfolding with_role
  Gives-update name role pod (e, f) =
      rw (← e, ← f) (roles.updated (with_role role pod) role (lookup_role role pod.meta.labels))

  Gives-label_pod :
      (name role : Str)
      → Gives (roles.HasRole cluster.namespace name role) (label_pod client name role cluster)
  unfolding label_pod
  Gives-label_pod name role =
      Ensures-bind _ _ _ _ (Ensures-map_err _ _ _ (roles.read_pod cluster.namespace name))
        (λ pod s p q. (Gives-map_err _ _ (Gives-update name role pod q)).at s tt)

  Keeps-label_pod :
      (x r name role : Str)
      → x ≢ name
      → Keeps (roles.HasRole cluster.namespace x r) (label_pod client name role cluster)
  unfolding label_pod with_role
  Keeps-label_pod x r name role ne =
      Ensures-bind (λ (p : Pod) _. (p.meta.namespace ≡ cluster.namespace) × (p.meta.name ≡ name)) _
        _ _
        (Ensures-map_err _ _ _
          (both _ _ _ (roles.kept_read _ x r _ name) (roles.read_pod cluster.namespace name)))
        (λ pod s p q.
          (Keeps-map_err _ _ (roles.kept_update _ x r (with_role role pod) (λ e. ne (e ∙ q.1)))).at
            s p)

  Keeps-setup_slave :
      (x r name : Str)
      → x ≢ name
      → Keeps (roles.HasRole cluster.namespace x r) (setup_slave client cluster name)
  unfolding setup_slave
  Keeps-setup_slave x r name ne =
      Keeps-bind _ _ (Keeps-map_err _ _ (roles.kept_read _ x r _ name)) (λ pod.
        Keeps-bind _ _ (Keeps-map_err _ _ (roles.kept_run _ x r pod _))
          (λ _. Keeps-map_err _ _ (Keeps-label_pod x r name _ ne)))

  Gives-setup_slave :
      (name : Str)
      → Gives (roles.HasRole cluster.namespace name (lit "slave")) (setup_slave client cluster name)
  unfolding setup_slave
  Gives-setup_slave name =
      Gives-then _ _ (λ _. Gives-then _ _ (λ _. Gives-map_err _ _ (Gives-label_pod name _)))

  Keeps-setup_slaves :
      (x r : Str) (names : List Str)
      → ¬ In x names
      → Keeps (roles.HasRole cluster.namespace x r) (for_each (setup_slave client cluster) names)
  unfolding for_each
  Keeps-setup_slaves x r [] h = Keeps-pure tt
  Keeps-setup_slaves x r (name ∷ names) h =
      Keeps-bind _ _ (Keeps-setup_slave x r name (λ e. h (inl e)))
        (λ _. Keeps-setup_slaves x r names (λ m. h (inr m)))

  Gives-setup_slaves :
      (x : Str) (names : List Str)
      → Distinct names
      → In x names
      → Gives
          (roles.HasRole cluster.namespace x (lit "slave"))
          (for_each (setup_slave client cluster) names)
  unfolding for_each
  Gives-setup_slaves x [] d m = elim m [ ]
  Gives-setup_slaves x (name ∷ names) (new, d) (inl e) = rw e (
      Gives-first _ _ (Gives-setup_slave name)
        (λ _. Keeps-setup_slaves name (lit "slave") names new))
  Gives-setup_slaves x (name ∷ names) (new, d) (inr m) =
      Gives-then _ _ (λ _. Gives-setup_slaves x names d m)

  pub Gives-master :
      (master : Str) (slaves : List Str)
      → (¬ In master slaves)
      → Gives
          (roles.HasRole cluster.namespace master (lit "master"))
          (setup_master_slave_replication client master slaves cluster)
  unfolding setup_master_slave_replication
  Gives-master master slaves new = Gives-then _ _ (λ _.
      Gives-first _ _ (Gives-map_err _ _ (Gives-label_pod master _)) (λ _.
        Keeps-bind _ _ (Keeps-map_err _ _ (roles.kept_run _ master _ _ _))
          (λ _. Keeps-setup_slaves master (lit "master") slaves new)))

  pub Gives-slave :
      (master : Str) (slaves : List Str) (slave : Str)
      → Distinct slaves
      → In slave slaves
      → Gives
          (roles.HasRole cluster.namespace slave (lit "slave"))
          (setup_master_slave_replication client master slaves cluster)
  unfolding setup_master_slave_replication
  Gives-slave master slaves slave d m =
      Gives-then _ _
        (λ _. Gives-then _ _ (λ _. Gives-then _ _ (λ _. Gives-setup_slaves slave slaves d m)))
