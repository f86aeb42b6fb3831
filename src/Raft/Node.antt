-- ===== src/Raft/Node.antt =====
-- The state of a RaftManager, its constructor, and the names of the cluster's nodes.
pub mod Names
use raft_based_mysql_cluster.Prelude.{
  ℕ, zero, suc, ◌+◌, ◌*◌, ℤ, pos, pos_part, ltb_ℤ, int64, ◌+ℤ◌, Str, lit, str_eq, Bool, not, List,
  [], ◌∷◌, ◌++◌, Option, none, some, length, get_elem?, if◌then◌else◌,
}
use raft_based_mysql_cluster.Prelude.Assoc.{Assoc}
use raft_based_mysql_cluster.Prelude.Decimal.{show_ℕ}
use raft_based_mysql_cluster.Api.{RaftState, follower, LogEntry, MysqlCluster}
use raft_based_mysql_cluster.Raft.Clock.{Time, zero_time, millisecond}

-- PeerInfo
pub record PeerInfo : Type 0 where
  pub node_id : Str
  pub last_contact : Time
  pub last_latency : ℤ
  pub is_active : Bool

-- RaftManager without its lock, client, channel and logger: a handler that holds the lock is one
-- step. `heartbeat_timeout` is the field that the constructor and the timer use. The cluster is
-- shared with the monitor and the MySQL integration through this field.
pub record RaftManager : Type 0 where
  pub node_id : Str
  pub cluster : MysqlCluster
  pub state : RaftState
  pub current_term : ℤ  -- int64
  pub voted_for : Str
  pub log : List LogEntry
  pub leader_id : Str
  pub next_index : Assoc ℤ  -- int64
  pub match_index : Assoc ℤ  -- int64
  pub election_timeout : ℤ
  pub heartbeat_timeout : ℤ
  pub heartbeat_interval : ℤ
  pub last_heartbeat : Time
  pub election_count : ℤ
  pub last_election : Time
  pub commit_index : ℤ  -- int64
  pub last_applied : ℤ  -- int64
  pub peers : Assoc PeerInfo
  pub heartbeat_count : ℤ

-- time.Duration(150+rand.Intn(150)) * time.Millisecond, at the value `r` of rand.Intn.
abbrev pub random_timeout : ℕ → ℤ
random_timeout r = pos ((150 + r) * millisecond)

-- NewRaftManager, at the value `r` of rand.Intn and the time `now`.
abbrev pub new_raft_manager : Str → MysqlCluster → ℕ → Time → RaftManager
new_raft_manager node_id cluster r now = record {
  node_id = node_id;
  cluster = cluster;
  state = follower;
  current_term = pos 0;
  voted_for = [];
  log = [];
  leader_id = [];
  next_index = [];
  match_index = [];
  election_timeout = random_timeout r;
  heartbeat_timeout = pos (50 * millisecond);
  heartbeat_interval = pos 0;
  last_heartbeat = now;
  election_count = pos 0;
  last_election = zero_time;
  commit_index = pos 0;
  last_applied = pos 0;
  peers = [];
  heartbeat_count = pos 0;
}

-- The function min of raft.go.
unfoldable pub min : ℤ → ℤ → ℤ
min a b = if ltb_ℤ a b then a else b

-- fmt.Sprintf("%s-%d", name, i)
unfoldable pub node_name : Str → ℕ → Str
node_name name i = name ++ (b'-' ∷ show_ℕ i)

-- The rounds i, i + 1, … of the loop, `n` of them.
unfoldable pub names_from : Str → ℕ → ℕ → List Str
names_from name i zero = []
names_from name i (suc n) = node_name name i ∷ names_from name (suc i) n

-- getClusterNodes, whose error is always nil; a negative replica count gives no round.
unfoldable pub get_cluster_nodes : RaftManager → List Str
unfolding names_from
get_cluster_nodes rm = names_from rm.cluster.name 0 (pos_part rm.cluster.spec.replicas)

-- The loop `for _, node := range nodes { if node != rm.nodeId`: the names other than `me`.
unfoldable pub others : Str → List Str → List Str
others me [] = []
others me (node ∷ nodes) = if str_eq node me then others me nodes else node ∷ others me nodes

-- The term of the last entry of the log, 0 for an empty log.
unfoldable pub last_log_term : List LogEntry → ℤ
last_log_term [] = pos 0
last_log_term (e ∷ []) = e.term
last_log_term (e ∷ f ∷ log) = last_log_term (f ∷ log)
