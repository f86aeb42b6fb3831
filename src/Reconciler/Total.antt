-- ===== src/Reconciler/Total.antt =====
-- The first call of Reconcile, where the API server works.
use raft_based_mysql_cluster.Prelude.{Str, true, ◌≡◌}
use raft_based_mysql_cluster.Api.{MysqlCluster}
use raft_based_mysql_cluster.Go.{ok, Go, try}
use raft_based_mysql_cluster.Kube.Client.{Client}
use raft_based_mysql_cluster.Resources.Working.{Working}
use raft_based_mysql_cluster.Reconciler.{Reconciler, Observed, within, reconcile_cluster, reconcile}

-- A call that leaves the fields alone and returns.
pub within-ok :
    {S A : Type 0} (m : Go S A) (r : Reconciler) (s s' : S) (a : A)
    → m s ≡ (ok a, s')
    → within m (r, s) ≡ (ok a, (r, s'))
unfolding within
within-ok m r s s' a e = rw e

abbrev pub enabled : Reconciler → Reconciler
enabled r = record r { snapshot_enabled = true }

pub reconcile-ok :
    {S : Type 0} (client : Client S) (observed : Observed) (cluster : MysqlCluster)
    (namespace name : Str) (r : Reconciler) (s s' : S)
    → client.get_cluster namespace name s ≡ (ok cluster, s')
    → reconcile client observed namespace name (r, s)
      ≡ reconcile_cluster client observed cluster (r, s')
unfolding reconcile within try
reconcile-ok client observed cluster namespace name r s s' read = rw read
