-- ===== src/Tests/RoundRuns.antt =====
-- The monitor beside a node that leads.
use raft_based_mysql_cluster.Prelude.{lit, [], ◌∷◌, List, ◌≡◌, inl, refl}
use raft_based_mysql_cluster.Api.{MysqlClusterStatus}
use raft_based_mysql_cluster.Go.{ok}
use raft_based_mysql_cluster.Go.Ends.{Ends-pure}
use raft_based_mysql_cluster.Raft.Node.{RaftManager, node_name}
use raft_based_mysql_cluster.Raft.Steps.{Reach, write_status}
use raft_based_mysql_cluster.Raft.World.{Run-Reach}
use raft_based_mysql_cluster.Monitor.Rounds.{
  Tick, collect, sync, check, Answering, HasSync, ticks, ticks_watch,
}
use raft_based_mysql_cluster.Tests.Data.{three}
use raft_based_mysql_cluster.Tests.Store.{Objects, store}
use raft_based_mysql_cluster.Tests.TotalRuns.{Reads-read}
use raft_based_mysql_cluster.Tests.WorldRuns.{led, leading}

answering : Answering (store [] [])
answering = record {
  read = λ n x. Reads-read _ n x _;
  made = λ o. record { at = λ s p. inl (tt, _, refl, tt) };
  written = λ o. Ends-pure tt;
  published = λ o. Ends-pure tt;
}

abbrev fired : List Tick
fired = collect 9000000000 (lit "t") ∷ sync 9000000000 ∷ check 9000000000 ∷ []

ticks_watch_example :
    (rm' : RaftManager) × (s' : Objects) × (ticks (store [] []) fired led.node [] ≡ (ok rm', s'))
    × Reach (node_name (lit "db") 0) three rm'
    × ((status : MysqlClusterStatus) × (rm' ≡ write_status status led.node))
    × (HasSync fired → rm'.cluster.status.raft_leader ≡ [])
ticks_watch_example = ticks_watch (store [] []) answering fired led.node [] (Run-Reach leading)
