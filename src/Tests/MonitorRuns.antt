-- ===== src/Tests/MonitorRuns.antt =====
-- Instances of the theorems on a node over time and on the monitor.
use raft_based_mysql_cluster.Prelude.{◌≤ℤ◌, ◌<ℤ◌, lit, true, false, [], ◌∷◌, ◌≡◌, ◌↔◌, arith, In}
use raft_based_mysql_cluster.Api.{follower}
use raft_based_mysql_cluster.Raft.Node.{RaftManager}
use raft_based_mysql_cluster.Raft.Clock.{since}
use raft_based_mysql_cluster.Raft.Steps.{Reach, start, next, forced, force_election, Step-term}
use raft_based_mysql_cluster.Monitor.{
  active_nodes, total_nodes, get_cluster_health, gather_metrics, perform_health_check,
  election_overdue, network_partition, apply_lag, sync_cluster_status, self_info,
}
use raft_based_mysql_cluster.Monitor.Quorum.{health_check_iff}
use raft_based_mysql_cluster.Monitor.Publish.{monitor_alone}
use raft_based_mysql_cluster.Tests.Data.{three, node0, peer1}

abbrev run0 : Reach (lit "db-0") three (force_election node0)
run0 = next (start 7 1000) forced

step_term_example : node0.current_term ≤ℤ (force_election node0).current_term
step_term_example =
    Step-term {rm = node0} {rm' = force_election node0} forced
      ((omega arith, omega arith), omega arith)

abbrev peered : RaftManager
peered = record node0 { peers = (lit "db-1", peer1) ∷ [] }

health_check_example :
    (In election_overdue (perform_health_check 2000 node0)
      ↔ ((node0.state ≡ follower) × (node0.election_timeout <ℤ since 2000 node0.last_heartbeat)))
    × (In network_partition (perform_health_check 2000 node0)
        ↔ ((get_cluster_health 2000 node0).has_quorum ≡ false))
    × (In apply_lag (perform_health_check 2000 node0) ↔ (node0.last_applied <ℤ node0.commit_index))
health_check_example = health_check_iff 2000 node0

monitor_alone_example :
    ((get_cluster_health 2000 (force_election node0)).total_nodes ≡ 1)
    × ((get_cluster_health 2000 (force_election node0)).active_nodes ≡ 0)
    × ((get_cluster_health 2000 (force_election node0)).has_quorum ≡ true)
    × ((get_cluster_health 2000 (force_election node0)).current_leader ≡ [])
    × ((gather_metrics 2000 (force_election node0)).leader_node_id ≡ [])
    × ((sync_cluster_status 2000 (force_election node0)).status.raft_leader ≡ [])
    × ((sync_cluster_status 2000 (force_election node0)).status.raft_nodes
        ≡ (lit "db-0", self_info 2000 (force_election node0)) ∷ [])
monitor_alone_example = monitor_alone 2000 run0
