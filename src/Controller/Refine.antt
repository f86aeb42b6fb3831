-- ===== src/Controller/Refine.antt =====
-- reconcileReplicas as an operation on the set of the cluster's pods.
use mathlib.Core.Quot
use raft_based_mysql_cluster.Prelude.{Str, List}
use raft_based_mysql_cluster.Api.{MysqlCluster}
use raft_based_mysql_cluster.Resources.Working.{Working}
use raft_based_mysql_cluster.Kube.Client.Laws.{Presence}
use raft_based_mysql_cluster.Go.Turns.{Turns}
use raft_based_mysql_cluster.Go.Keeps.{Keeps}
use raft_based_mysql_cluster.Kube.Client.{Client}
use raft_based_mysql_cluster.Kube.Client.Listing.{Listing}
use raft_based_mysql_cluster.Replicas.View.{SameNames}

module _ {S : Type 0} (client : Client S) (cluster : MysqlCluster) (there : Presence client)
    (works : Working client there cluster)
    (listing : Listing client cluster.namespace works.Up) where
  open listing use {pods}

  -- The pods of the state are those of the list.
  abbrev Has : List Str → S → Type 0
  Has xs s = SameNames (pods s) xs
