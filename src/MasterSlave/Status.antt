-- ===== src/MasterSlave/Status.antt =====
-- Which replicas the controller repairs.
use raft_based_mysql_cluster.Prelude.{Str, List, [], ◌∷◌, ◌≡◌, In, if◌then◌else◌}
use raft_based_mysql_cluster.Api.{MysqlCluster}
use raft_based_mysql_cluster.Go.{ok}
use raft_based_mysql_cluster.Kube.Client.{Client}
use raft_based_mysql_cluster.MasterSlave.{slave_status, is_replicating}

module _ {S : Type 0} (client : Client S) (cluster : MysqlCluster) (answer : Str → Str) where
  -- The names whose answer says that a thread is not running.
  stopped : List Str → List Str
  stopped [] = []
  stopped (name ∷ names) =
      let rest = stopped names in if is_replicating (answer name) then rest else name ∷ rest

  -- At the state `s` each of the replicas can be asked, and asking changes nothing.
  abbrev pub IsAnswered : S → List Str → Type 0
  IsAnswered s names =
      (name : Str) → In name names → slave_status client cluster name s ≡ (ok (answer name), s)
