-- ===== src/Raft/Append/Revote.antt =====
-- What a request of a leader does to the vote.
use raft_based_mysql_cluster.Prelude.{◌≤ℤ◌, true, ◌≡◌, inl, inr, sym, ◌∙◌}
use raft_based_mysql_cluster.Raft.Clock.{Time}
use raft_based_mysql_cluster.Raft.Node.{RaftManager}
use raft_based_mysql_cluster.Raft.Append.{AppendRequest, handle_append_entries}
use raft_based_mysql_cluster.Raft.Append.Accept.{handle-fresh}
use raft_based_mysql_cluster.Raft.Vote.{VoteRequest, handle_vote_request}
use raft_based_mysql_cluster.Raft.Vote.Grant.{IsUpToDate, grant_iff}

-- After a request of a leader whose term is not stale, even one that is refused, the node grants its
-- vote in that term to any candidate whose log is up to date, whomever it has voted for before.
pub append_reopens_vote :
    (now later : Time) (req : AppendRequest) (ballot : VoteRequest) (rm : RaftManager)
    → rm.current_term ≤ℤ req.term
    → ballot.term ≡ req.term
    → IsUpToDate ballot (handle_append_entries now req rm).0.log
    → (handle_vote_request later ballot (handle_append_entries now req rm).0).1 ≡ true
append_reopens_vote now later req ballot rm fresh same newer =
    let (term, free, _) = handle-fresh now req rm fresh in
    (grant_iff later ballot _).1 (inr (term ∙ sym same, inl free), newer)
