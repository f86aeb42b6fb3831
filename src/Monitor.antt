-- ===== src/Monitor.antt =====
-- internal/controller/raft_monitoring.go: the metrics, the health report, the health check and the
-- status that the monitor publishes. The monitor reads the manager and shares its cluster.
pub mod Quorum
pub mod Publish
pub mod Metrics
pub mod Rounds
use raft_based_mysql_cluster.Prelude.{
  ℕ, zero, suc, ◌+◌, ◌/◌, ℤ, pos, ltb_ℤ, int64, ◌+ℤ◌, Str, lit, Bool, true, false, List, [], ◌∷◌,
  ◌++◌, length, ltb, leb, if◌then◌else◌,
}
use raft_based_mysql_cluster.Prelude.Assoc.{Assoc, insert}
use raft_based_mysql_cluster.Prelude.Decimal.{show_ℕ, show_ℤ}
use raft_based_mysql_cluster.Api.{
  RaftState, follower, candidate, leader, RaftNodeInfo, MysqlCluster,
}
use raft_based_mysql_cluster.Raft.Clock.{Time, since}
use raft_based_mysql_cluster.Raft.Node.{PeerInfo, RaftManager}

-- time.Since(peer.LastContact) < 2*rm.raftManager.heartbeatInterval
unfoldable pub is_recent : Time → RaftManager → PeerInfo → Bool
is_recent now rm peer =
    ltb_ℤ (since now peer.last_contact) (int64 (rm.heartbeat_interval +ℤ rm.heartbeat_interval))

-- The loop that counts the active peers.
unfoldable pub count_active : Time → RaftManager → Assoc PeerInfo → ℕ
count_active now rm [] = 0
count_active now rm ((_, peer) ∷ peers) =
    if is_recent now rm peer then suc (count_active now rm peers) else count_active now rm peers

abbrev pub active_nodes : Time → RaftManager → ℕ
active_nodes now rm = count_active now rm rm.peers

-- The peers and the node itself.
abbrev pub total_nodes : RaftManager → ℕ
total_nodes rm = length rm.peers + 1

-- RaftMetrics; `semi_sync_enabled` and `replication_lag` are never filled in.
pub record RaftMetrics : Type 0 where
  pub current_term : ℤ
  pub current_state : RaftState
  pub leader_node_id : Str
  pub cluster_size : ℕ
  pub active_nodes : ℕ
  pub election_count : ℤ
  pub last_election : Time
  pub election_timeout : ℤ
  pub log_index : ℕ
  pub commit_index : ℤ
  pub applied_index : ℤ
  pub heartbeat_count : ℤ
  pub last_heartbeat : Time
  pub network_latency : Assoc ℤ
  pub master_node : Str
  pub slave_nodes : List Str
  pub semi_sync_enabled : Bool
  pub replication_lag : Assoc ℤ

unfoldable pub latencies : Assoc PeerInfo → Assoc ℤ → Assoc ℤ
latencies [] m = m
latencies ((_, peer) ∷ peers) m = latencies peers (insert peer.node_id peer.last_latency m)

-- gatherMetrics and GetMetrics
unfoldable pub gather_metrics : Time → RaftManager → RaftMetrics
gather_metrics now rm = record {
  current_term = rm.current_term;
  current_state = rm.state;
  leader_node_id = rm.leader_id;
  cluster_size = total_nodes rm;
  active_nodes = active_nodes now rm;
  election_count = rm.election_count;
  last_election = rm.last_election;
  election_timeout = rm.election_timeout;
  log_index = length rm.log;
  commit_index = rm.commit_index;
  applied_index = rm.last_applied;
  heartbeat_count = rm.heartbeat_count;
  last_heartbeat = rm.last_heartbeat;
  network_latency = latencies rm.peers [];
  master_node = rm.cluster.status.master;
  slave_nodes = rm.cluster.status.slaves;
  semi_sync_enabled = false;
  replication_lag = [];
}

-- string(state)
abbrev pub show_state : RaftState → Str
show_state follower = lit "follower"
show_state candidate = lit "candidate"
show_state leader = lit "leader"

-- The data that updateMetricsConfigMap writes; `stamp` is the time of the write in RFC 3339.
unfoldable pub metrics_data : Str → RaftMetrics → Assoc Str
metrics_data stamp metrics =
    (lit "current_term", show_ℤ metrics.current_term)
    ∷ (lit "current_state", show_state metrics.current_state)
    ∷ (lit "leader_node_id", metrics.leader_node_id)
    ∷ (lit "cluster_size", show_ℕ metrics.cluster_size)
    ∷ (lit "active_nodes", show_ℕ metrics.active_nodes)
    ∷ (lit "election_count", show_ℤ metrics.election_count)
    ∷ (lit "log_index", show_ℕ metrics.log_index)
    ∷ (lit "commit_index", show_ℤ metrics.commit_index)
    ∷ (lit "heartbeat_count", show_ℤ metrics.heartbeat_count)
    ∷ (lit "master_node", metrics.master_node)
    ∷ (lit "last_updated", stamp)
    ∷ []

-- The map that GetClusterHealth returns.
pub record ClusterHealth : Type 0 where
  pub total_nodes : ℕ
  pub active_nodes : ℕ
  pub has_quorum : Bool
  pub current_leader : Str
  pub current_term : ℤ
  pub cluster_state : RaftState
  pub last_election : Time

unfoldable pub get_cluster_health : Time → RaftManager → ClusterHealth
get_cluster_health now rm = record {
  total_nodes = total_nodes rm;
  active_nodes = active_nodes now rm;
  has_quorum = leb (total_nodes rm / 2) (active_nodes now rm);
  current_leader = rm.leader_id;
  current_term = rm.current_term;
  cluster_state = rm.state;
  last_election = rm.last_election;
}

-- The warnings of performHealthCheck.
pub data Warning : Type 0 where
  election_overdue network_partition apply_lag : Warning

abbrev pub is_follower : RaftState → Bool
is_follower follower = true
is_follower _ = false

abbrev pub warn : Bool → Warning → List Warning
warn b w = if b then w ∷ [] else []

-- performHealthCheck: the warnings that it logs.
unfoldable pub perform_health_check : Time → RaftManager → List Warning
perform_health_check now rm =
    (if is_follower rm.state
      then warn (ltb_ℤ rm.election_timeout (since now rm.last_heartbeat)) election_overdue
      else [])
    ++ (warn (ltb (active_nodes now rm) (total_nodes rm / 2)) network_partition
        ++ warn (ltb_ℤ rm.last_applied rm.commit_index) apply_lag)

-- What syncClusterStatus writes about the node itself and about a peer.
abbrev pub self_info : Time → RaftManager → RaftNodeInfo
self_info now rm = record {
  node_id = rm.node_id;
  state = rm.state;
  term = rm.current_term;
  last_contact = now;
  is_active = true;
}

abbrev pub peer_info : Time → RaftManager → PeerInfo → RaftNodeInfo
peer_info now rm peer = record {
  node_id = peer.node_id;
  state = follower;
  term = rm.current_term;
  last_contact = peer.last_contact;
  is_active = is_recent now rm peer;
}

unfoldable pub add_peers :
    Time → RaftManager → Assoc PeerInfo → Assoc RaftNodeInfo → Assoc RaftNodeInfo
add_peers now rm [] nodes = nodes
add_peers now rm ((_, peer) ∷ peers) nodes =
    add_peers now rm peers (insert peer.node_id (peer_info now rm peer) nodes)

-- syncClusterStatus: the cluster whose status it sends to the API server, ignoring the error.
unfoldable pub sync_cluster_status : Time → RaftManager → MysqlCluster
sync_cluster_status now rm =
    let self = insert rm.node_id (self_info now rm) [] in
    record rm.cluster {
      status = record rm.cluster.status {
        raft_nodes = add_peers now rm rm.peers self;
        raft_leader = rm.leader_id;
        raft_term = rm.current_term;
        cluster_size = pos (total_nodes rm);
      };
    }
