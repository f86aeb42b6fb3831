-- ===== src/Controller/Roles.antt =====
-- The roles of the pods when init returns without an error.
use raft_based_mysql_cluster.Prelude.{
  ℕ, zero, suc, ◌-◌, ◌≤◌, pos_part, lit, List, [], ◌∷◌, ◌≡◌, inl, inr, refl, ap, sym, ◌∙◌, arith,
  In, Distinct,
}
use raft_based_mysql_cluster.Prelude.Decimal.{show_02, show_ℕ, show_02-injective}
use raft_based_mysql_cluster.Api.{MysqlCluster}
use raft_based_mysql_cluster.Go.Rules.{Gives, Gives-then, Gives-map_err, Gives-if, Gives-raise}
use raft_based_mysql_cluster.Kube.Client.{Client}
use raft_based_mysql_cluster.Replicas.{pod_name, find_submatch}
use raft_based_mysql_cluster.Replicas.Numbers.{find_submatch-pod_name}
use raft_based_mysql_cluster.Replication.Roles.{Roles, Gives-master, Gives-slave}
use raft_based_mysql_cluster.Controller.{count_up, slave_pod_names, init_replicas, init}
use raft_based_mysql_cluster.Controller.Numbers.{In-count_up, count_up-le}

pod_name-injective : (i k : ℕ) → pod_name (show_02 i) ≡ pod_name (show_02 k) → i ≡ k
pod_name-injective i k e =
    let same = sym (find_submatch-pod_name i) ∙ ap find_submatch e ∙ find_submatch-pod_name k in
    show_02-injective i k (cc same)

In-slave_pod_names :
    (i : ℕ) (is : List ℕ) → In i is → In (pod_name (show_02 i)) (slave_pod_names is)
unfolding slave_pod_names
In-slave_pod_names i [] m = elim m [ ]
In-slave_pod_names i (k ∷ is) (inl e) = inl (ap (λ n. pod_name (show_02 n)) e)
In-slave_pod_names i (k ∷ is) (inr m) = inr (In-slave_pod_names i is m)

slave_pod_names-In :
    (i : ℕ) (is : List ℕ) → In (pod_name (show_02 i)) (slave_pod_names is) → In i is
unfolding slave_pod_names
slave_pod_names-In i [] m = elim m [ ]
slave_pod_names-In i (k ∷ is) (inl e) = inl (pod_name-injective i k e)
slave_pod_names-In i (k ∷ is) (inr m) = inr (slave_pod_names-In i is m)

slave_pod_names-Distinct : (first n : ℕ) → Distinct (slave_pod_names (count_up first n))
unfolding slave_pod_names count_up
slave_pod_names-Distinct first zero = tt
slave_pod_names-Distinct first (suc n) = (
  λ m. omega (
    arith,
    count_up-le (suc first) n first (slave_pod_names-In first (count_up (suc first) n) m),
  ),
  slave_pod_names-Distinct (suc first) n,
)

-- The master is the pod of the number 1.
pub master_pod : lit "mysql-01" ≡ pod_name (show_02 1)
unfolding pod_name show_02 show_ℕ
master_pod = refl

all-Distinct : (n : ℕ) → Distinct (lit "mysql-01" ∷ slave_pod_names (count_up 2 n))
all-Distinct n = (
  λ m. omega (arith, count_up-le 2 n 1 (slave_pod_names-In 1 (count_up 2 n) (rw (← master_pod) m))),
  slave_pod_names-Distinct 2 n,
)

module _ {S : Type 0} (client : Client S) (roles : Roles client) where
  replicas_roles :
      (polls : ℕ) (cluster : MysqlCluster)
      → Gives
          (roles.HasRole cluster.namespace (lit "mysql-01") (lit "master"))
          (init_replicas client polls cluster)
        × ((i : ℕ)
            → 2 ≤ i
            → i ≤ pos_part cluster.spec.replicas
            → Gives
                (roles.HasRole cluster.namespace (pod_name (show_02 i)) (lit "slave"))
                (init_replicas client polls cluster))
  unfolding init_replicas
  replicas_roles polls cluster =
      let n = pos_part cluster.spec.replicas - 1 in
      let slaves = slave_pod_names (count_up 2 n) in
      let (new, distinct) = all-Distinct n in
      let master = Gives-master client roles cluster (lit "mysql-01") slaves new in
      (
        Gives-then _ _ (λ _. Gives-then _ _ (λ _. Gives-then _ _ (λ _. Gives-map_err _ _ master))),
        λ i lo hi.
            let m = In-slave_pod_names i (count_up 2 n) (In-count_up 2 n i lo (omega arith)) in
            let slave =
              Gives-slave client roles cluster (lit "mysql-01") slaves (pod_name (show_02 i))
                distinct m in
            Gives-then _ _
              (λ _. Gives-then _ _ (λ _. Gives-then _ _ (λ _. Gives-map_err _ _ slave))),
      )

  -- Where a pod is read under its name, an update writes its labels and nobody else writes them
  -- (Roles): if init returns without an error, the pod mysql-01 has the role of the master, whatever
  -- the number of replicas, and each pod of a number from 2 to the replicas of the specification has
  -- that of a slave.
  pub init_roles :
      (polls : ℕ) (cluster : MysqlCluster)
      → Gives
          (roles.HasRole cluster.namespace (lit "mysql-01") (lit "master"))
          (init client polls cluster)
        × ((i : ℕ)
            → 2 ≤ i
            → i ≤ pos_part cluster.spec.replicas
            → Gives
                (roles.HasRole cluster.namespace (pod_name (show_02 i)) (lit "slave"))
                (init client polls cluster))
  unfolding init
  init_roles polls cluster =
      let (master, slave) = replicas_roles polls cluster in
      (
        Gives-then _ _ (λ _. Gives-then _ _ (λ _. Gives-if _ _ _ (Gives-raise _) master)),
        λ i lo hi.
            Gives-then _ _
              (λ _. Gives-then _ _ (λ _. Gives-if _ _ _ (Gives-raise _) (slave i lo hi))),
      )
