-- ===== src/Kube.antt =====
-- The Kubernetes objects that the operator reads and writes, with the fields that it uses.
pub mod Client
use raft_based_mysql_cluster.Prelude.{ℕ, Bool, List, Option, Str}
use raft_based_mysql_cluster.Prelude.Assoc.{Assoc}
use raft_based_mysql_cluster.Api.{ResourceRequirements}

pub record OwnerReference : Type 0 where
  pub api_version : Str
  pub kind : Str
  pub name : Str
  pub uid : Str
  pub controller : Bool

pub record ObjectMeta : Type 0 where
  pub name : Str
  pub namespace : Str
  pub labels : Assoc Str
  pub owner_references : List OwnerReference

pub record ConfigMap : Type 0 where
  pub meta : ObjectMeta
  pub content : Assoc Str  -- the field Data

pub record PersistentVolumeClaim : Type 0 where
  pub meta : ObjectMeta
  pub access_modes : List Str
  pub storage : Str  -- the request of ResourceStorage
  pub storage_class_name : Str

-- The container of a pod, with the variables, ports and mounts that the operator gives it.
pub record Container : Type 0 where
  pub name : Str
  pub image : Str
  pub resources : ResourceRequirements
  pub env : Assoc Str
  pub port : ℕ
  pub mounts : Assoc Str  -- from the name of a volume to its mount path

pub record Pod : Type 0 where
  pub meta : ObjectMeta
  pub containers : List Container
  pub config_map_name : Str  -- of the volume mysql-config
  pub claim_name : Str  -- of the volume mysql-data
  pub phase : Str
  pub container_ready : List Bool  -- the field Ready of each container status

pub record Service : Type 0 where
  pub meta : ObjectMeta
  pub selector : Assoc Str
  pub port : ℕ
  pub target_port : ℕ
  pub protocol : Str
  pub service_type : Str

-- The names of the targets (TargetRef, which may be nil) of the addresses of each subset.
pub record Endpoints : Type 0 where
  pub subsets : List (List (Option Str))
