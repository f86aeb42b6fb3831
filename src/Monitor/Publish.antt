-- ===== src/Monitor/Publish.antt =====
-- The status that the monitor publishes.
use raft_based_mysql_cluster.Prelude.{
  Str, str_eq_iff, str_eq_refl, true, List, [], ◌∷◌, some, ◌≡◌, ◌⊎◌, inl, inr, refl, ap, ◌∙◌, arith,
  In, Distinct,
}
use raft_based_mysql_cluster.Prelude.Assoc.{Assoc, lookup, insert, lookup-insert}
use raft_based_mysql_cluster.Api.{RaftNodeInfo, MysqlCluster}
use raft_based_mysql_cluster.Raft.Clock.{Time}
use raft_based_mysql_cluster.Raft.Node.{PeerInfo, RaftManager}
use raft_based_mysql_cluster.Raft.Steps.{Reach, Reach-IsUntouched}
use raft_based_mysql_cluster.Monitor.{
  self_info, peer_info, add_peers, sync_cluster_status, get_cluster_health, gather_metrics,
  count_active,
}

abbrev pub ids : Assoc PeerInfo → List Str
ids [] = []
ids ((_, peer) ∷ peers) = peer.node_id ∷ ids peers

abbrev pub HasPeer : PeerInfo → Assoc PeerInfo → Type 0
HasPeer peer [] = ⊥
HasPeer peer ((_, first) ∷ peers) = (peer ≡ first) ⊎ HasPeer peer peers

HasPeer-id :
    (peer : PeerInfo) (peers : Assoc PeerInfo) → HasPeer peer peers → In peer.node_id (ids peers)
HasPeer-id peer [] h = elim h [ ]
HasPeer-id peer ((_, first) ∷ peers) (inl e) = inl (ap (λ (p : PeerInfo). p.node_id) e)
HasPeer-id peer ((_, first) ∷ peers) (inr h) = inr (HasPeer-id peer peers h)

module _ (now : Time) (rm : RaftManager) where
  -- A name that no peer has keeps its entry.
  lookup-add_peers_other :
      (peers : Assoc PeerInfo) (nodes : Assoc RaftNodeInfo) (x : Str)
      → ¬ In x (ids peers)
      → lookup x (add_peers now rm peers nodes) ≡ lookup x nodes
  unfolding add_peers
  lookup-add_peers_other [] nodes x h = refl
  lookup-add_peers_other ((_, peer) ∷ peers) nodes x h =
      lookup-add_peers_other peers _ x (λ m. h (inr m))
      ∙ rw lookup-insert (ground (arith, str_eq_iff peer.node_id x))

  lookup-add_peers :
      (peers : Assoc PeerInfo) (nodes : Assoc RaftNodeInfo) (peer : PeerInfo)
      → Distinct (ids peers)
      → HasPeer peer peers
      → lookup peer.node_id (add_peers now rm peers nodes) ≡ some (peer_info now rm peer)
  unfolding add_peers
  lookup-add_peers [] nodes peer d h = elim h [ ]
  lookup-add_peers ((_, first) ∷ peers) nodes peer d (inl e) = rw e (
      lookup-add_peers_other peers _ first.node_id d.0
      ∙ rw (lookup-insert, str_eq_refl first.node_id))
  lookup-add_peers ((_, first) ∷ peers) nodes peer d (inr h) = lookup-add_peers peers _ peer d.1 h

-- The status that the monitor writes holds the node itself, active and in its own state and term,
-- and each peer as a follower that is active if it was heard of recently, where no peer has the
-- node's name or that of another peer; all else of the cluster is as before.
pub sync_cluster_status_lem :
    (now : Time) (rm : RaftManager)
    → Distinct (rm.node_id ∷ ids rm.peers)
    → (lookup rm.node_id (sync_cluster_status now rm).status.raft_nodes ≡ some (self_info now rm))
      × ((peer : PeerInfo)
          → HasPeer peer rm.peers
          → lookup peer.node_id (sync_cluster_status now rm).status.raft_nodes
            ≡ some (peer_info now rm peer))
      × ((sync_cluster_status now rm).spec ≡ rm.cluster.spec)
      × ((sync_cluster_status now rm).status.master ≡ rm.cluster.status.master)
      × ((sync_cluster_status now rm).status.slaves ≡ rm.cluster.status.slaves)
unfolding sync_cluster_status
sync_cluster_status_lem now rm (fresh, d) = (
  lookup-add_peers_other now rm rm.peers _ rm.node_id fresh
      ∙ rw (lookup-insert, str_eq_refl rm.node_id),
  λ peer h. lookup-add_peers now rm rm.peers _ peer d h,
  refl,
  refl,
  refl,
)

-- However a node came about, also as the leader: the monitor reports one node, none active, a quorum
-- and no leader, and the status that it writes names no leader and no node but this one.
pub monitor_alone :
    (now : Time) {me : Str} {cluster : MysqlCluster} {rm : RaftManager}
    → Reach me cluster rm
    → ((get_cluster_health now rm).total_nodes ≡ 1)
      × ((get_cluster_health now rm).active_nodes ≡ 0)
      × ((get_cluster_health now rm).has_quorum ≡ true)
      × ((get_cluster_health now rm).current_leader ≡ [])
      × ((gather_metrics now rm).leader_node_id ≡ [])
      × ((sync_cluster_status now rm).status.raft_leader ≡ [])
      × ((sync_cluster_status now rm).status.raft_nodes ≡ (me, self_info now rm) ∷ [])
unfolding get_cluster_health sync_cluster_status gather_metrics count_active add_peers insert
monitor_alone now {rm} reach =
    let h = Reach-IsUntouched reach in
    (
      rw h.no_peers,
      rw h.no_peers,
      rw h.no_peers,
      h.no_leader_id,
      h.no_leader_id,
      h.no_leader_id,
      rw h.no_peers (rw (← h.id)),
    )
