-- ===== src/Api.antt =====
-- The custom resource of api/v1/mysqlcluster_types.go and its status.
use raft_based_mysql_cluster.Prelude.{ℕ, Bool, List, Str, ℤ}
use raft_based_mysql_cluster.Prelude.Assoc.{Assoc}

-- The three values of the string type RaftState.
pub data RaftState : Type 0 where
  follower candidate leader : RaftState

-- RaftLogEntry
pub record LogEntry : Type 0 where
  pub term : ℤ  -- int64
  pub index : ℤ  -- int64
  pub command : Str

-- RaftNodeInfo, with the two fields that raft_monitoring.go writes and the declaration lacks.
pub record RaftNodeInfo : Type 0 where
  pub node_id : Str
  pub state : RaftState
  pub term : ℤ  -- int64
  pub last_contact : ℕ  -- time, in the form of Raft/Clock
  pub is_active : Bool

pub record StorageConfig : Type 0 where
  pub storage_class_name : Str
  pub size : Str

-- ResourceRequests and ResourceLimits, which have the same fields.
pub record ResourceAmounts : Type 0 where
  pub cpu : Str
  pub memory : Str

pub record ResourceRequirements : Type 0 where
  pub requests : ResourceAmounts
  pub limits : ResourceAmounts

pub record MysqlClusterSpec : Type 0 where
  pub image : Str
  pub replicas : ℤ  -- int32
  pub master_service : Str
  pub slave_service : Str
  pub storage : StorageConfig
  pub resources : ResourceRequirements

-- The maps and slices that may be nil are read and written like empty ones.
pub record MysqlClusterStatus : Type 0 where
  pub master : Str
  pub slaves : List Str
  pub raft_nodes : Assoc RaftNodeInfo
  pub raft_leader : Str
  pub raft_term : ℤ  -- int64
  pub cluster_size : ℤ  -- int32

-- MysqlCluster, with the fields of its metadata that the operator reads.
pub record MysqlCluster : Type 0 where
  pub name : Str
  pub namespace : Str
  pub uid : Str
  pub annotations : Assoc Str
  pub spec : MysqlClusterSpec
  pub status : MysqlClusterStatus
