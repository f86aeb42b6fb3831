-- ===== src/Tests/StuckRuns.antt =====
-- A cluster whose master is down, and whose pods have the operator's names.
use raft_based_mysql_cluster.Prelude.{
  Str, lit, str_eq, false, [], ◌∷◌, some, ◌≡◌, inl, inr, refl, ap, if◌then◌else◌,
}
use raft_based_mysql_cluster.Api.{leader}
use raft_based_mysql_cluster.Go.{ok, Go, pure, raise}
use raft_based_mysql_cluster.Go.Rules.{Gives}
use raft_based_mysql_cluster.Go.Keeps.{Ensures, Ensures-pure}
use raft_based_mysql_cluster.Kube.{Pod, Endpoints}
use raft_based_mysql_cluster.Kube.Client.{Client}
use raft_based_mysql_cluster.Kube.Client.Laws.{Anything}
use raft_based_mysql_cluster.Raft.Node.{RaftManager}
use raft_based_mysql_cluster.MasterSlave.{has_address}
use raft_based_mysql_cluster.Integration.Failover.{AllNamed}
use raft_based_mysql_cluster.Reconciler.{Observed, reconcile}
use raft_based_mysql_cluster.Reconciler.Stuck.{reconcile_stuck}
use raft_based_mysql_cluster.Tests.CreationRuns.{fresh, calm}
use raft_based_mysql_cluster.Tests.Data.{node0}
use raft_based_mysql_cluster.Tests.Failovers.{marked, marked_there}
use raft_based_mysql_cluster.Tests.Store.{Objects, store, missing, pod_of}

-- Every pod is there but one of the name of the node.
abbrev find : Str → Str → Go Objects Pod
find n x = if str_eq x (lit "db-0") then raise missing else pure (pod_of n x)

abbrev headless : Client Objects
headless = record (store [] []) {
  get_cluster = λ n x. pure marked;
  get_pod = find;
  get_endpoints = λ n x. pure (record { subsets = [] });
}

no_address :
    Ensures Anything
      (λ (e : Endpoints) s. has_address e ≡ false)
      (headless.get_endpoints (lit "default") (lit "master-service"))
unfolding has_address
no_address = Ensures-pure _ _ (λ s p. refl)

no_pod : Gives (λ s. ⊥) (headless.get_pod (lit "default") (lit "db-0"))
unfolding str_eq raise
no_pod = record { at = λ s p. tt }

abbrev leading0 : RaftManager
leading0 = record node0 { state = leader }

abbrev seen : Observed
seen = record calm { rounds = leading0 ∷ [] }

seen-AllNamed : AllNamed (lit "db-0") (leading0 ∷ [])
seen-AllNamed rm m = elim m [ inl e ↦ ap (λ (n : RaftManager). n.node_id) e | inr f ↦ elim f [ ] ]

reconcile_stuck_example : ¬ (
    (reconcile headless seen
      (lit "default")
      (lit "db")
      (record fresh { raft_manager = some node0 }, [])).0
    ≡ ok tt)
unfolding pure
reconcile_stuck_example =
    reconcile_stuck headless seen marked node0 no_address no_pod seen-AllNamed (lit "default")
      (lit "db") fresh [] [] refl marked_there
