-- ===== src/Tests/Labels.antt =====
-- An API server whose state is the list of the roles written, the latest first.
use raft_based_mysql_cluster.Prelude.{
  ℕ, ◌≤◌, Str, lit, str_eq, str_eq_refl, str_eq_iff, ◌&&◌, List, [], ◌∷◌, Option, none, some, ◌≡◌,
  ◌≢◌, refl, arith, if◌then◌else◌,
}
use raft_based_mysql_cluster.Prelude.Assoc.{lookup}
use raft_based_mysql_cluster.Go.{ok, Go, pure}
use raft_based_mysql_cluster.Go.Keeps.{Keeps}
use raft_based_mysql_cluster.Go.Rules.{Gives, Keeps-pure}
use raft_based_mysql_cluster.Kube.{ObjectMeta, Pod}
use raft_based_mysql_cluster.Kube.Client.{Client}
use raft_based_mysql_cluster.Replication.Roles.{Roles}
use raft_based_mysql_cluster.Prelude.Decimal.{show_02}
use raft_based_mysql_cluster.Replicas.{pod_name}
use raft_based_mysql_cluster.Controller.{init}
use raft_based_mysql_cluster.Controller.Roles.{init_roles}
use raft_based_mysql_cluster.Tests.Data.{three}
use raft_based_mysql_cluster.Tests.Store.{Objects, store, pod_of}

abbrev pub current : Str → Str → Objects → Option Str
current n x [] = none
current n x ((m, y, r) ∷ s) =
    let rest = current n x s in if str_eq n m && str_eq x y then some r else rest

abbrev pub write : ObjectMeta → Option Str → Go Objects (Unit {0})
write meta none s = (ok tt, s)
write meta (some r) s = (ok tt, (meta.namespace, meta.name, r) ∷ s)

-- Every list has the pods `listed`, and every pod answers `answer`.
abbrev pub labelled_by : List Pod → Str → Client Objects
labelled_by listed answer = record (store listed answer) {
  get_pod = λ n x. pure (pod_of n x);
  update_pod = λ o. write o.meta (lookup (lit "role") o.meta.labels);
}

current-head : (n x r : Str) (s : Objects) → current n x ((n, x, r) ∷ s) ≡ some r
current-head n x r s = rw (str_eq_refl n, str_eq_refl x) refl

Keeps-write :
    (n x r : Str) (meta : ObjectMeta) (role : Option Str)
    → x ≢ meta.name
    → Keeps (λ s. current n x s ≡ some r) (write meta role)
Keeps-write n x r meta none ne = record { at = λ s p. (p, tt) }
Keeps-write n x r meta (some q) ne = record {
  at = λ s p. (ground (arith, str_eq_iff x meta.name), tt);
}

abbrev labelled : Client Objects
labelled = labelled_by [] []

pub roles_by : (listed : List Pod) (answer : Str) → Roles (labelled_by listed answer)
unfolding pure
roles_by listed answer = record {
  HasRole = λ n x r s. current n x s ≡ some r;
  read_pod = λ n x. record { at = λ s p. (tt, (refl, refl)) };
  updated = λ o role h. record {
    at = λ s p. rw h (tt, current-head o.meta.namespace o.meta.name role s);
  };
  kept_read = λ n x r m y. Keeps-pure _;
  kept_run = λ n x r o cmd. Keeps-pure _;
  kept_update = λ n x r o ne. Keeps-write n x r o.meta _ ne;
}

labelled_roles : Roles labelled
labelled_roles = roles_by [] []

init_roles_example :
    Gives
      (labelled_roles.HasRole (lit "default") (lit "mysql-01") (lit "master"))
      (init labelled 1 three)
    × ((i : ℕ)
        → 2 ≤ i
        → i ≤ 3
        → Gives
            (labelled_roles.HasRole (lit "default") (pod_name (show_02 i)) (lit "slave"))
            (init labelled 1 three))
init_roles_example = init_roles labelled labelled_roles 1 three
