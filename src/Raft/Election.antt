-- ===== src/Raft/Election.antt =====
-- The election timer, startElection, the goroutine that sends one vote request, becomeLeader,
-- sendHeartbeats and updateClusterStatus.
pub mod Tally
pub mod Lead
pub mod Conflict
use raft_based_mysql_cluster.Prelude.{
  ℕ, ◌+◌, ◌/◌, ℤ, pos, ltb_ℤ, int64, ◌+ℤ◌, Str, Bool, true, false, not, ◌&&◌, List, [], ◌∷◌, ◌++◌,
  map, length, leb, if◌then◌else◌,
}
use raft_based_mysql_cluster.Prelude.Assoc.{Assoc, insert}
use raft_based_mysql_cluster.Api.{
  RaftState, follower, candidate, leader, RaftNodeInfo, MysqlCluster, MysqlClusterStatus,
}
use raft_based_mysql_cluster.Raft.Clock.{Time, zero_time, since}
use raft_based_mysql_cluster.Raft.Node.{RaftManager, random_timeout, get_cluster_nodes, others}

abbrev pub is_leader : RaftState → Bool
is_leader leader = true
is_leader _ = false

abbrev pub is_candidate : RaftState → Bool
is_candidate candidate = true
is_candidate _ = false

-- What a step does besides changing the node: a goroutine started, or the status written to the
-- API server, whose error the program ignores.
pub data Effect : Type 0 where
  send_vote_request : Str → Effect
  send_append_entries : Str → Effect
  update_status : MysqlCluster → Effect

-- The variables of one call of startElection that its goroutines share.
pub record Ballot : Type 0 where
  pub votes : ℕ
  pub majority : ℕ

-- startElection, at the time `now` and the value `r` of rand.Intn.
unfoldable pub start_election : Time → ℕ → RaftManager → RaftManager × Ballot × List Effect
start_election now r rm =
    let rm1 = record rm {
      state = candidate;
      current_term = int64 (rm.current_term +ℤ pos 1);
      voted_for = rm.node_id;
      last_heartbeat = now;
      election_timeout = random_timeout r;
    } in
    let nodes = get_cluster_nodes rm1 in
    (
      rm1,
      record { votes = 1; majority = length nodes / 2 + 1 },
      map send_vote_request (others rm1.node_id nodes),
    )

-- A round of the election timer with the lock held; `none` is a round that starts no election.
unfoldable pub election_due : Time → RaftManager → Bool
election_due now rm =
    not (is_leader rm.state) && ltb_ℤ rm.election_timeout (since now rm.last_heartbeat)

-- The loop of becomeLeader over the nodes other than itself.
unfoldable pub set_all : ℤ → List Str → Assoc ℤ → Assoc ℤ
set_all v [] m = m
set_all v (node ∷ nodes) m = set_all v nodes (insert node v m)

-- sendHeartbeats: the goroutines that it starts.
unfoldable pub send_heartbeats : RaftManager → List Effect
send_heartbeats rm = map send_append_entries (others rm.node_id (get_cluster_nodes rm))

-- What updateClusterStatus writes about this node: the last two fields are not set there.
abbrev own_info : RaftManager → RaftNodeInfo
own_info rm = record {
  node_id = rm.node_id;
  state = rm.state;
  term = rm.current_term;
  last_contact = zero_time;
  is_active = false;
}

abbrev claim_lead : RaftManager → MysqlClusterStatus → MysqlClusterStatus
claim_lead rm status =
    if is_leader rm.state
    then record status { raft_leader = rm.node_id; raft_term = rm.current_term }
    else status

-- updateClusterStatus of the manager, without the call of the API server.
unfoldable pub update_cluster_status : RaftManager → RaftManager
update_cluster_status rm =
    let status = rm.cluster.status in
    let noted = record status { raft_nodes = insert rm.node_id (own_info rm) status.raft_nodes } in
    let led = claim_lead rm noted in
    let sized = record led { cluster_size = rm.cluster.spec.replicas } in
    record rm { cluster = record rm.cluster { status = sized } }

-- becomeLeader
unfoldable pub become_leader : RaftManager → RaftManager × List Effect
unfolding update_cluster_status send_heartbeats
become_leader rm =
    let rm1 = record rm { state = leader } in
    let peers = others rm1.node_id (get_cluster_nodes rm1) in
    let rm2 = record rm1 {
      next_index = set_all (pos (length rm1.log + 1)) peers rm1.next_index;
      match_index = set_all (pos 0) peers rm1.match_index;
    } in
    let rm3 = update_cluster_status rm2 in
    (rm3, send_heartbeats rm2 ++ update_status rm3.cluster ∷ [])

-- The goroutine of one vote request after sendVoteRequest has returned `sent`.
unfoldable pub vote_request_sent : Bool → Ballot → RaftManager → RaftManager × Ballot × List Effect
vote_request_sent false ballot rm = (rm, ballot, [])
vote_request_sent true ballot rm =
    let counted = record ballot { votes = ballot.votes + 1 } in
    if leb counted.majority counted.votes && is_candidate rm.state
    then (let (led, effects) = become_leader rm in (led, counted, effects))
    else (rm, counted, [])

-- A round of the heartbeat timer with the lock held.
unfoldable pub heartbeat_tick : RaftManager → List Effect
unfolding send_heartbeats
heartbeat_tick rm = if is_leader rm.state then send_heartbeats rm else []
