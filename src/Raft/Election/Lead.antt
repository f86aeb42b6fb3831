-- ===== src/Raft/Election/Lead.antt =====
-- What becoming the leader sets up.
use raft_based_mysql_cluster.Prelude.{
  ◌+◌, ℤ, pos, Str, str_eq_iff, contains, contains_iff, true, List, [], ◌∷◌, ◌≡◌, ◌≢◌, refl, arith,
  length, In, if◌then◌else◌,
}
use raft_based_mysql_cluster.Prelude.Assoc.{Assoc, index, insert, index-insert}
use raft_based_mysql_cluster.Api.{leader}
use raft_based_mysql_cluster.Raft.Node.{RaftManager, get_cluster_nodes, others}
use raft_based_mysql_cluster.Raft.Node.Names.{In-others}
use raft_based_mysql_cluster.Raft.Election.{become_leader, set_all}

index-set_all :
    (v z : ℤ) (nodes : List Str) (m : Assoc ℤ) (x : Str)
    → index z (set_all v nodes m) x ≡ (if contains nodes x then v else index z m x)
unfolding set_all
index-set_all v z [] m x = refl
index-set_all v z (node ∷ nodes) m x = ground (
  arith,
  index-set_all v z nodes (insert node v m) x,
  index-insert z node x v m,
  str_eq_iff x node,
  str_eq_iff node x,
)

-- The peers of a node.
abbrev pub peers : RaftManager → List Str
peers rm = others rm.node_id (get_cluster_nodes rm)

-- A new leader expects of each other node of the cluster that its log ends where its own does, and
-- knows of no entry there; it keeps its term, its vote, its log and its commit index, and notes
-- itself and its term as the leader's in the status.
pub become_leader_lem :
    (rm : RaftManager) (x : Str)
    → In x (get_cluster_nodes rm)
    → x ≢ rm.node_id
    → ((become_leader rm).0.state ≡ leader)
      × (index (pos 0) (become_leader rm).0.next_index x ≡ pos (length rm.log + 1))
      × (index (pos 0) (become_leader rm).0.match_index x ≡ pos 0)
      × ((become_leader rm).0.voted_for ≡ rm.voted_for)
      × ((become_leader rm).0.log ≡ rm.log)
      × ((become_leader rm).0.current_term ≡ rm.current_term)
      × ((become_leader rm).0.commit_index ≡ rm.commit_index)
      × ((become_leader rm).0.cluster.status.raft_leader ≡ rm.node_id)
      × ((become_leader rm).0.cluster.status.raft_term ≡ rm.current_term)
unfolding become_leader get_cluster_nodes
become_leader_lem rm x m ne =
    let peer : contains (peers rm) x ≡ true =
      (contains_iff (peers rm) x).1 ((In-others rm.node_id x _).1 (m, ne)) in
    (
      refl,
      rw index-set_all (rw peer),
      rw index-set_all (rw peer),
      refl,
      refl,
      refl,
      refl,
      refl,
      refl,
    )
