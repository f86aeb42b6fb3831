-- ===== src/Monitor/Quorum.antt =====
-- The quorum that the monitor reports.
use raft_based_mysql_cluster.Prelude.{
  ◌/◌, ◌<ℤ◌, ltb_ℤ, Bool, true, false, List, [], ◌++◌, if◌then◌else◌, ◌≡◌, ◌↔◌, arith, In, ltb,
}
use raft_based_mysql_cluster.Prelude.Assoc.{Assoc}
use raft_based_mysql_cluster.Api.{follower}
use raft_based_mysql_cluster.Raft.Clock.{Time, since}
use raft_based_mysql_cluster.Raft.Node.{RaftManager}
use raft_based_mysql_cluster.Monitor.{
  active_nodes, total_nodes, get_cluster_health, perform_health_check, warn, is_follower,
  election_overdue, network_partition, apply_lag, Warning,
}

module _ (b c d e : Bool) where
  -- The three parts of the report, by the outcomes of its tests.
  abbrev report : List Warning
  report =
      (if b then warn c election_overdue else []) ++ (warn d network_partition ++ warn e apply_lag)

  In-report :
      (In election_overdue report ↔ ((b ≡ true) × (c ≡ true)))
      × (In network_partition report ↔ (d ≡ true))
      × (In apply_lag report ↔ (e ≡ true))
  In-report = (ground arith, ground arith, ground arith)

-- The health check warns of an election that is overdue exactly if the node follows and has heard
-- nothing for longer than its timeout, of a partition exactly if the health report of the same time
-- has no quorum, and of a lag exactly if entries are committed that are not applied.
pub health_check_iff :
    (now : Time) (rm : RaftManager)
    → (In election_overdue (perform_health_check now rm)
        ↔ ((rm.state ≡ follower) × (rm.election_timeout <ℤ since now rm.last_heartbeat)))
      × (In network_partition (perform_health_check now rm)
          ↔ ((get_cluster_health now rm).has_quorum ≡ false))
      × (In apply_lag (perform_health_check now rm) ↔ (rm.last_applied <ℤ rm.commit_index))
unfolding get_cluster_health perform_health_check
health_check_iff now rm =
    let (overdue, partition, lag) =
      In-report (is_follower rm.state) (ltb_ℤ rm.election_timeout (since now rm.last_heartbeat))
        (ltb (active_nodes now rm) (total_nodes rm / 2)) (ltb_ℤ rm.last_applied rm.commit_index) in
    (
      (
        λ m. let (f, late) = overdue.0 m in (ground arith, ground arith),
        λ (f, late). overdue.1 (ground arith, ground arith),
      ),
      (λ m. let p = partition.0 m in ground arith, λ q. partition.1 (ground arith)),
      (λ m. let l = lag.0 m in ground arith, λ l. lag.1 (ground arith)),
    )
