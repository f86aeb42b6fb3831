-- ===== src/MasterSlave/Slaves.antt =====
-- The roles of the pods after ensureSlaveRoles.
use raft_based_mysql_cluster.Prelude.{
  Str, lit, str_eq, str_eq_iff, str_eq_refl, List, [], ◌∷◌, ◌≡◌, ◌≢◌, inl, inr, subst, In, Distinct,
  Bool-cases,
}
use raft_based_mysql_cluster.Api.{MysqlCluster}
use raft_based_mysql_cluster.Go.{ok, for_each}
use raft_based_mysql_cluster.Go.Keeps.{Holds, Ensures, Keeps}
use raft_based_mysql_cluster.Go.Rules.{
  Gives, Keeps-pure, Keeps-if, Keeps-bind, Gives-first, Gives-then, given, kept, bind-run,
}
use raft_based_mysql_cluster.Kube.{Pod}
use raft_based_mysql_cluster.Kube.Client.{Client}
use raft_based_mysql_cluster.Kube.Client.Laws.{Anything}
use raft_based_mysql_cluster.Replication.{with_role, get_master_pod_name_from_endpoints}
use raft_based_mysql_cluster.Replication.Roles.{Roles, lookup_role}
use raft_based_mysql_cluster.MasterSlave.{role_of, ensure_slave_role, ensure_slave_roles}
use raft_based_mysql_cluster.MasterSlave.Failover.{names_of, In-names}

-- What the theorem relies on of the list of a cluster's pods: their names differ, and their labels
-- are those that the API server has.
abbrev pub AreListed : {S : Type 0} (client : Client S) → Roles client → Str → List Pod → S → Type 0
AreListed client roles n pods s =
    Distinct (names_of pods)
    × ((q : Pod) → In q pods → q.meta.namespace ≡ n)
    × ((q : Pod)
        → In q pods
        → role_of q ≡ lit "slave"
        → roles.HasRole n q.meta.name (lit "slave") s)

pub record Lists {S : Type 0} (client : Client S) (roles : Roles client) (n : Str) : Type 0 where
  pub listed :
      Ensures Anything
        (λ pods s. AreListed client roles n pods s)
        (client.list_pods n (lit "app") (lit "mysql"))

module _ {S : Type 0} (client : Client S) (roles : Roles client) (cluster : MysqlCluster)
    (master : Str) where
  IsSlave : Str → S → Type 0
  IsSlave x s = roles.HasRole cluster.namespace x (lit "slave") s

  other-Keeps :
      (x : Str) (pod : Pod)
      → x ≢ pod.meta.name
      → Keeps (IsSlave x) (ensure_slave_role client cluster master pod)
  unfolding ensure_slave_role with_role IsSlave
  other-Keeps x pod ne =
      Keeps-if _ _ _
        (roles.kept_update cluster.namespace x (lit "slave") (with_role (lit "slave") pod) ne)
        (Keeps-pure tt)

  others-Keep :
      (x : Str) (pods : List Pod)
      → ¬ In x (names_of pods)
      → Keeps (IsSlave x) (for_each (ensure_slave_role client cluster master) pods)
  unfolding for_each
  others-Keep x [] h = Keeps-pure tt
  others-Keep x (pod ∷ pods) h =
      Keeps-bind _ _ (other-Keeps x pod (λ e. h (inl e))) (λ _. others-Keep x pods (λ m. h (inr m)))

  loop-Keeps :
      (q : Pod) (pods : List Pod)
      → Distinct (names_of pods)
      → In q pods
      → role_of q ≡ lit "slave"
      → Keeps (IsSlave q.meta.name) (for_each (ensure_slave_role client cluster master) pods)
  unfolding for_each ensure_slave_role
  loop-Keeps q [] d m e = elim m [ ]
  loop-Keeps q (pod ∷ pods) (new, d) (inl same) e =
      Keeps-bind _ _
        (rw (← same, e, str_eq_refl (lit "slave"))
          (elim (Bool-cases (str_eq q.meta.name master)) [
            | inl t ↦ rw t (Keeps-pure tt)
            | inr f ↦ rw f (Keeps-pure tt)
          ]))
        (λ _. others-Keep q.meta.name pods (rw same new))
  loop-Keeps q (pod ∷ pods) (new, d) (inr m) e =
      Keeps-bind _ _
        (other-Keeps q.meta.name pod
          (λ f. new (subst (λ x. In x (names_of pods)) f (In-names q pods m))))
        (λ _. loop-Keeps q pods d m e)

  role-Gives :
      (q : Pod)
      → q.meta.namespace ≡ cluster.namespace
      → q.meta.name ≢ master
      → role_of q ≢ lit "slave"
      → Gives (IsSlave q.meta.name) (ensure_slave_role client cluster master q)
  unfolding ensure_slave_role with_role IsSlave
  role-Gives q here ne free = elim (Bool-cases (str_eq q.meta.name master)) [
    | inl t ↦ absurd (ne ((str_eq_iff q.meta.name master).0 t))
    | inr f ↦ elim (Bool-cases (str_eq (role_of q) (lit "slave"))) [
      | inl t ↦ absurd (free ((str_eq_iff (role_of q) (lit "slave")).0 t))
      | inr g ↦
          rw (f, g)
            (rw (← here) (
              roles.updated (with_role (lit "slave") q) (lit "slave")
                (lookup_role (lit "slave") q.meta.labels)))
    ]
  ]

  loop-Gives :
      (q : Pod) (pods : List Pod)
      → Distinct (names_of pods)
      → In q pods
      → Gives (IsSlave q.meta.name) (ensure_slave_role client cluster master q)
      → Gives (IsSlave q.meta.name) (for_each (ensure_slave_role client cluster master) pods)
  unfolding for_each
  loop-Gives q [] d m h = elim m [ ]
  loop-Gives q (pod ∷ pods) (new, d) (inl same) h =
      Gives-first _ _ (rw (← same) h) (λ _. others-Keep q.meta.name pods (rw same new))
  loop-Gives q (pod ∷ pods) (new, d) (inr m) h = Gives-then _ _ (λ _. loop-Gives q pods d m h)

-- Where the API server lists the pods with their own labels and different names (Lists), and nobody
-- else writes labels (Roles): if ensureSlaveRoles returns without an error, it has read a master from
-- the endpoints and listed the pods, and each listed pod but the master's has the role of a slave,
-- whether it had it before or was given it.
pub slaves_ensured :
    {S : Type 0} (client : Client S) (roles : Roles client) (cluster : MysqlCluster)
    (lists : Lists client roles cluster.namespace) (s s' : S)
    → ensure_slave_roles client cluster s ≡ (ok tt, s')
    → (master : Str) × (s1 : S) × (get_master_pod_name_from_endpoints client cluster s
        ≡ (ok master, s1))
      × (pods : List Pod) × (s2 : S) × (client.list_pods cluster.namespace
            (lit "app")
            (lit "mysql")
            s1
          ≡ (ok pods, s2))
      × ((q : Pod)
          → In q pods
          → q.meta.name ≢ master
          → roles.HasRole cluster.namespace q.meta.name (lit "slave") s')
unfolding ensure_slave_roles IsSlave
slaves_ensured {S} client roles cluster lists s s' run =
    let (master, s1, e1, run1) = bind-run _ _ s s' tt run in
    let (pods, s2, e2, loop) = bind-run _ _ s1 s' tt run1 in
    let (distinct, here, labelled) =
      (subst (λ o. Holds Anything (λ ps t. AreListed client roles cluster.namespace ps t) o.0 o.1)
        e2 (lists.listed.at s1 tt)).1 in
    (
      master,
      s1,
      e1,
      pods,
      s2,
      e2,
      λ q m ne. elim (Bool-cases (str_eq (role_of q) (lit "slave"))) [
        | inl t ↦
            let old = (str_eq_iff (role_of q) (lit "slave")).0 t in
            kept _ _ s2 s' tt (loop-Keeps client roles cluster master q pods distinct m old)
              (labelled q m old) loop
        | inr f ↦
            given _ _ s2 s' tt
              (loop-Gives client roles cluster master q pods distinct m (
                role-Gives client roles cluster master q (here q m) ne
                  (λ e. cc (f, (str_eq_iff (role_of q) (lit "slave")).1 e))))
              loop
      ],
    )
