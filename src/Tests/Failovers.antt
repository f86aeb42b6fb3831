-- ===== src/Tests/Failovers.antt =====
-- Instances of the theorems on failovers and on a cluster that is in order.
use raft_based_mysql_cluster.Prelude.{
  pos, Str, lit, str_eq, contains_text, true, false, List, [], ◌∷◌, ◌≡◌, ◌≢◌, inl, inr, refl, ap,
  arith, In, Distinct, some,
}
use raft_based_mysql_cluster.Prelude.Assoc.{lookup, insert}
use raft_based_mysql_cluster.Prelude.Decimal.{value}
use raft_based_mysql_cluster.Go.{ok, pure, lift, map_err, for_each, ◌>>=◌}
use raft_based_mysql_cluster.Kube.{Pod}
use raft_based_mysql_cluster.Raft.Node.{others}
use raft_based_mysql_cluster.Resources.{is_pod_healthy}
use raft_based_mysql_cluster.Replication.{
  get_master_pod_name_from_endpoints, first_address, label_pod, setup_master_slave_replication,
  setup_slave, with_role,
}
use raft_based_mysql_cluster.Promotion.{
  get_data_score, get_data_size, parse_int, trim_left, trim_right, calculate_gtid_score, elect_loop,
  promote, elect_new_master,
}
use raft_based_mysql_cluster.Promotion.Choice.{IsScored}
use raft_based_mysql_cluster.MasterSlave.{handle_master_failure}
use raft_based_mysql_cluster.MasterSlave.Failover.{failover_roles}
use raft_based_mysql_cluster.MasterSlave.{
  is_replicating, role_of, ensure_slave_role, ensure_slave_roles,
}
use raft_based_mysql_cluster.MasterSlave.Slaves.{Lists, slaves_ensured}
use raft_based_mysql_cluster.Api.{MysqlCluster}
use raft_based_mysql_cluster.Kube.Client.{Client}
use raft_based_mysql_cluster.Reconciler.{Reconciler, reconcile, is_initialized, mark_initialized}
use raft_based_mysql_cluster.Reconciler.Settled.{IsSettled}
use raft_based_mysql_cluster.Reconciler.Settled.Idle.{settled_idle}
use raft_based_mysql_cluster.Tests.CreationRuns.{fresh, calm}
use raft_based_mysql_cluster.Tests.Data.{three, last_byte}
use raft_based_mysql_cluster.Tests.Labels.{labelled_by, roles_by}
use raft_based_mysql_cluster.Tests.OperatorRuns.{two_pods}
use raft_based_mysql_cluster.Tests.Store.{Objects, whole, pod_of}

pods-IsScored : IsScored whole (labelled_by two_pods (lit "40")) [] (λ pod. pos 40) [] two_pods
unfolding get_data_score ◌>>=◌ map_err pure get_data_size lift parse_int trim_right trim_left value
    calculate_gtid_score str_eq
pods-IsScored pod m = refl

abbrev role_written : Str → Str → Objects → Objects
role_written x role s = (lit "default", x, role) ∷ s

failed_over : handle_master_failure (labelled_by two_pods (lit "40")) three whole [] [] ≡ (
  ok tt,
  role_written (lit "mysql-03") (lit "slave") (role_written (lit "mysql-02") (lit "master") []),
)
unfolding handle_master_failure ◌>>=◌ elect_new_master map_err pure elect_loop is_pod_healthy str_eq
    get_data_score get_data_size lift parse_int trim_right trim_left value promote
    calculate_gtid_score setup_master_slave_replication for_each insert others label_pod setup_slave
    with_role lookup
failed_over = refl

two_replicas : Distinct (lit "mysql-02" ∷ lit "mysql-03" ∷ [])
two_replicas = (λ m. elim m [ inl e ↦ omega (arith, ap last_byte e) | inr f ↦ f ], ((λ m. m), tt))

abbrev outcome : Objects
outcome =
    role_written (lit "mysql-03") (lit "slave") (role_written (lit "mysql-02") (lit "master") [])

failover_roles_example :
    (p : Pod) × In p two_pods
    × (is_pod_healthy p ≡ true)
    × ((q : Pod) → In q two_pods → is_pod_healthy q ≡ true → whole.lt (pos 40) (pos 40) ≡ false)
    × (roles_by two_pods (lit "40")).HasRole (lit "default") p.meta.name (lit "master") outcome
    × ((q : Pod)
        → In q two_pods
        → q.meta.name ≢ p.meta.name
        → (roles_by two_pods (lit "40")).HasRole (lit "default") q.meta.name (lit "slave") outcome)
unfolding pure
failover_roles_example =
    failover_roles whole (labelled_by two_pods (lit "40")) [] (λ pod. pos 40)
      (roles_by two_pods (lit "40")) three [] outcome two_pods refl pods-IsScored two_replicas
      failed_over

-- Three pods, of which the endpoints of the master's service name the first.
abbrev slave_pod : Str → Pod
slave_pod x = with_role (lit "slave") (pod_of (lit "default") x)

abbrev three_pods : List Pod
three_pods =
    pod_of (lit "default") (lit "mysql-01")
    ∷ slave_pod (lit "mysql-02")
    ∷ slave_pod (lit "mysql-03")
    ∷ []

abbrev pub marked : MysqlCluster
marked = mark_initialized three

abbrev threads_run : Str
threads_run = lit "Slave_IO_Running: Yes Slave_SQL_Running: Yes"

abbrev calm_client : Client Objects
calm_client = record (labelled_by three_pods threads_run) { get_cluster = λ n x. pure marked }

threads_seen : is_replicating threads_run ≡ true
unfolding is_replicating contains_text
threads_seen = refl

named_slave : (x : Str) → role_of (slave_pod x) ≡ lit "slave"
unfolding role_of with_role lookup insert str_eq
named_slave x = refl

calm-IsSettled : IsSettled calm_client marked []
unfolding pure mark_initialized
calm-IsSettled = record {
  endpoints = record { subsets = (some (lit "mysql-01") ∷ []) ∷ [] };
  master = lit "mysql-01";
  more = [];
  subsets = [];
  pods = three_pods;
  answered = refl;
  addressed = refl;
  listed = refl;
  counted = refl;
  enslaved = λ q m ne. elim m [
    | inl e ↦ absurd (ne (ap (λ (p : Pod). p.meta.name) e))
    | inr (inl e) ↦ rw e (named_slave (lit "mysql-02"))
    | inr (inr (inl e)) ↦ rw e (named_slave (lit "mysql-03"))
    | inr (inr (inr none_else)) ↦ elim none_else [ ]
  ];
  replicating = λ q m ne. (_, threads_run, refl, refl, threads_seen);
  unrecorded = inl refl;
}

pub marked_there : is_initialized marked ≡ true
unfolding is_initialized mark_initialized lookup insert str_eq
marked_there = refl

settled_idle_example :
    (r' : Reconciler) × (reconcile calm_client calm (lit "default") (lit "db") (fresh, [])
      ≡ (ok tt, (r', [])))
unfolding pure
settled_idle_example =
    settled_idle calm_client marked [] calm-IsSettled calm (lit "default") (lit "db") fresh refl
      marked_there

-- Two pods beside that of the master, neither with a role yet.
two-Lists : Lists (labelled_by two_pods []) (roles_by two_pods []) (lit "default")
unfolding pure role_of lookup
two-Lists = record {
  listed = record {
    at = λ s p. (
      tt,
      (
        two_replicas,
        λ q m. elim m [
          | inl e ↦ ap (λ (p : Pod). p.meta.namespace) e
          | inr (inl e) ↦ ap (λ (p : Pod). p.meta.namespace) e
          | inr (inr none_else) ↦ elim none_else [ ]
        ],
        λ q m e. absurd (elim m [
          | inl f ↦ cc (rw f at e)
          | inr (inl f) ↦ cc (rw f at e)
          | inr (inr none_else) ↦ elim none_else [ ]
        ]),
      ),
    );
  };
}

abbrev both_slaves : Objects
both_slaves =
    role_written (lit "mysql-03") (lit "slave") (role_written (lit "mysql-02") (lit "slave") [])

ensured : ensure_slave_roles (labelled_by two_pods []) three [] ≡ (ok tt, both_slaves)
unfolding ensure_slave_roles ensure_slave_role get_master_pod_name_from_endpoints first_address
    for_each ◌>>=◌ map_err pure str_eq role_of with_role insert lookup
ensured = refl

slaves_ensured_example :
    (master : Str) × (s1 : Objects) × (get_master_pod_name_from_endpoints
        (labelled_by two_pods [])
        three
        []
      ≡ (ok master, s1))
    × (pods : List Pod) × (s2 : Objects) × ((labelled_by two_pods []).list_pods
          (lit "default")
          (lit "app")
          (lit "mysql")
          s1
        ≡ (ok pods, s2))
    × ((q : Pod)
        → In q pods
        → q.meta.name ≢ master
        → (roles_by two_pods []).HasRole (lit "default") q.meta.name (lit "slave") both_slaves)
slaves_ensured_example =
    slaves_ensured (labelled_by two_pods []) (roles_by two_pods []) three two-Lists [] both_slaves
      ensured
