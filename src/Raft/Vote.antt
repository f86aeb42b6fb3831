-- ===== src/Raft/Vote.antt =====
-- HandleVoteRequest. The modules below prove when it grants a vote, and that it grants one a term.
pub mod Grant
pub mod Once
use raft_based_mysql_cluster.Prelude.{
  ℤ, pos, ltb_ℤ, eqb_ℤ, Str, str_eq, Bool, true, false, not, ◌&&◌, ◌||◌, List, [], ◌∷◌, length,
  if◌then◌else◌,
}
use raft_based_mysql_cluster.Api.{follower, LogEntry}
use raft_based_mysql_cluster.Raft.Clock.{Time}
use raft_based_mysql_cluster.Raft.Node.{RaftManager, last_log_term}

-- The request of a candidate.
pub record VoteRequest : Type 0 where
  pub candidate_id : Str
  pub term : ℤ
  pub last_log_index : ℤ
  pub last_log_term : ℤ

-- A request of a later term makes the node a follower of that term that has not voted.
unfoldable pub adopt_term : ℤ → RaftManager → RaftManager
adopt_term term rm =
    if ltb_ℤ rm.current_term term
    then record rm { current_term = term; voted_for = []; state = follower }
    else rm

-- Is the candidate's log behind the node's own?
unfoldable pub is_behind : VoteRequest → List LogEntry → Bool
is_behind req log =
    let my_last_log_index = pos (length log) in
    let my_last_log_term = last_log_term log in
    ltb_ℤ req.last_log_term my_last_log_term
    || (eqb_ℤ req.last_log_term my_last_log_term && ltb_ℤ req.last_log_index my_last_log_index)

-- The rest of the handler, after the terms are compared.
unfoldable pub cast_vote : Time → VoteRequest → RaftManager → RaftManager × Bool
cast_vote now req rm =
    if not (str_eq rm.voted_for []) && not (str_eq rm.voted_for req.candidate_id)
    then (rm, false)
    else if is_behind req rm.log
    then (rm, false)
    else (record rm { voted_for = req.candidate_id; last_heartbeat = now }, true)

-- HandleVoteRequest, at the time `now`.
unfoldable pub handle_vote_request : Time → VoteRequest → RaftManager → RaftManager × Bool
unfolding adopt_term cast_vote
handle_vote_request now req rm =
    if ltb_ℤ req.term rm.current_term
    then (rm, false)
    else cast_vote now req (adopt_term req.term rm)
