-- ===== src/Tests/Data.antt =====
-- A cluster of three nodes, its nodes, and requests to them.
use raft_based_mysql_cluster.Prelude.{Str, ℕ, pos, lit, true, [], ◌∷◌}
use raft_based_mysql_cluster.Api.{ResourceAmounts, MysqlCluster, MysqlClusterSpec, LogEntry}
use raft_based_mysql_cluster.Raft.Node.{RaftManager, PeerInfo, new_raft_manager}
use raft_based_mysql_cluster.Raft.Vote.{VoteRequest}
use raft_based_mysql_cluster.Raft.Append.{AppendRequest}

abbrev pub amounts : ResourceAmounts
amounts = record { cpu = lit "500m"; memory = lit "1Gi" }

abbrev pub three_spec : MysqlClusterSpec
three_spec = record {
  image = lit "mysql:5.7";
  replicas = pos 3;
  master_service = lit "master-service";
  slave_service = lit "slave-service";
  storage = record { storage_class_name = lit "local"; size = lit "1Gi" };
  resources = record { requests = amounts; limits = amounts };
}

abbrev pub three : MysqlCluster
three = record {
  name = lit "db";
  namespace = lit "default";
  uid = lit "u";
  annotations = [];
  spec = three_spec;
  status = record {
    master = [];
    slaves = [];
    raft_nodes = [];
    raft_leader = [];
    raft_term = pos 0;
    cluster_size = pos 0;
  };
}

-- The node db-0 as it starts, and db-1.
abbrev pub node0 : RaftManager
node0 = new_raft_manager (lit "db-0") three 7 1000

abbrev pub node1 : RaftManager
node1 = new_raft_manager (lit "db-1") three 20 1000

-- An empty log, asked for a vote in the term 1.
abbrev pub ballot1 : VoteRequest
ballot1 = record {
  candidate_id = lit "db-1";
  term = pos 1;
  last_log_index = pos 0;
  last_log_term = pos 0;
}

abbrev pub entry : ℕ → LogEntry
entry i = record { term = pos 1; index = pos i; command = lit "set" }

-- Two entries for an empty log, of which the leader has committed both.
abbrev pub append1 : AppendRequest
append1 = record {
  leader_id = lit "db-2";
  term = pos 1;
  prev_log_index = pos 0;
  prev_log_term = pos 0;
  entries = entry 1 ∷ entry 2 ∷ [];
  leader_commit = pos 2;
}

-- The node db-0 with two entries, both committed.
abbrev pub committed0 : RaftManager
committed0 = record node0 {
  current_term = pos 1;
  log = entry 1 ∷ entry 2 ∷ [];
  commit_index = pos 2;
}

-- The first of the entries again, from a leader that has committed nothing else.
abbrev pub shorter : AppendRequest
shorter = record append1 { entries = entry 1 ∷ []; leader_commit = pos 1 }

abbrev pub peer1 : PeerInfo
peer1 = record { node_id = lit "db-1"; last_contact = 900; last_latency = pos 5; is_active = true }

-- Tells the names of the tests apart.
abbrev pub last_byte : Str → ℕ
last_byte [] = 0
last_byte (c ∷ []) = c
last_byte (c ∷ (d ∷ s)) = last_byte (d ∷ s)
