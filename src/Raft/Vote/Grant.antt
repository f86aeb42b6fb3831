-- ===== src/Raft/Vote/Grant.antt =====
-- When a vote is granted, and what the handler changes.
use raft_based_mysql_cluster.Prelude.{
  pos, ◌≤ℤ◌, ◌<ℤ◌, eqb_ℤ_iff, eq_of_parts, str_eq_iff, true, false, List, [], length, ◌≡◌, ◌⊎◌, ◌↔◌,
  arith,
}
use raft_based_mysql_cluster.Api.{LogEntry}
use raft_based_mysql_cluster.Raft.Clock.{Time}
use raft_based_mysql_cluster.Raft.Node.{RaftManager, last_log_term}
use raft_based_mysql_cluster.Raft.Vote.{VoteRequest, is_behind, handle_vote_request}

-- The candidate's log ends in a later term, or in the same term and is at least as long.
abbrev pub IsUpToDate : VoteRequest → List LogEntry → Type 0
IsUpToDate req log =
    (last_log_term log <ℤ req.last_log_term)
    ⊎ ((req.last_log_term ≡ last_log_term log) × (pos (length log) ≤ℤ req.last_log_index))

-- The node has a vote to give in the term of the request.
abbrev pub HasVoteFor : VoteRequest → RaftManager → Type 0
HasVoteFor req rm =
    (rm.current_term <ℤ req.term)
    ⊎ ((rm.current_term ≡ req.term) × ((rm.voted_for ≡ []) ⊎ (rm.voted_for ≡ req.candidate_id)))

is_behind_iff :
    (req : VoteRequest) (log : List LogEntry) → (is_behind req log ≡ false) ↔ IsUpToDate req log
unfolding is_behind
is_behind_iff req log = ground (arith, eqb_ℤ_iff req.last_log_term (last_log_term log))

-- A vote is granted exactly if the request's term is later than the node's, or is the node's and the
-- node has voted for nobody else in it, and the candidate's log is at least as up to date as its own.
pub grant_iff :
    (now : Time) (req : VoteRequest) (rm : RaftManager)
    → ((handle_vote_request now req rm).1 ≡ true) ↔ (HasVoteFor req rm × IsUpToDate req rm.log)
unfolding handle_vote_request
grant_iff now req rm = ground (
  arith,
  is_behind_iff req rm.log,
  str_eq_iff rm.voted_for [],
  str_eq_iff rm.voted_for req.candidate_id,
  str_eq_iff [] [],
  eq_of_parts rm.current_term req.term,
)
