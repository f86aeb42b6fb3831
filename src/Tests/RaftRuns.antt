-- ===== src/Tests/RaftRuns.antt =====
-- Instances of the theorems on the nodes and the monitor.
use raft_based_mysql_cluster.Prelude.{
  ◌+◌, ◌*◌, ◌<◌, pos, ◌≤ℤ◌, ◌<ℤ◌, lit, true, [], ◌∷◌, ◌≡◌, ◌≢◌, inl, inr, ◌↔◌, refl, ap, str_eq,
  arith, In, length, sym, ◌∙◌,
}
use raft_based_mysql_cluster.Api.{leader}
use raft_based_mysql_cluster.Raft.Node.{last_log_term, names_from, get_cluster_nodes, node_name}
use raft_based_mysql_cluster.Raft.Vote.{VoteRequest, handle_vote_request, is_behind}
use raft_based_mysql_cluster.Raft.Append.{
  replied, panicked, handle_append_entries, check_log, append_entries, store_entries, slice_to,
  advance_commit,
}
use raft_based_mysql_cluster.Prelude.Decimal.{show_ℕ}
use raft_based_mysql_cluster.Prelude.Assoc.{index}
use raft_based_mysql_cluster.Raft.Election.{become_leader}
use raft_based_mysql_cluster.Raft.Node.Names.{get_cluster_nodes_lem}
use raft_based_mysql_cluster.Raft.Vote.Grant.{grant_iff, IsUpToDate, HasVoteFor}
use raft_based_mysql_cluster.Raft.Vote.Once.{vote, handle, handle_all, vote_once}
use raft_based_mysql_cluster.Raft.Append.Accept.{IsAccepted, IsBroken, accept_iff, panic_iff}
use raft_based_mysql_cluster.Raft.Append.Store.{append_twice}
use raft_based_mysql_cluster.Raft.Append.Commit.{IsCommitted, commit_kept, committed_lost}
use raft_based_mysql_cluster.Raft.Append.Revote.{append_reopens_vote}
use raft_based_mysql_cluster.Raft.Election.Tally.{elected, count_sent, elected_iff}
use raft_based_mysql_cluster.Raft.Election.Lead.{become_leader_lem}
use raft_based_mysql_cluster.Raft.Election.Conflict.{both_elected}
use raft_based_mysql_cluster.Tests.Data.{
  last_byte, node0, node1, ballot1, append1, committed0, shorter,
}

grant_example :
    ((handle_vote_request 2000 ballot1 node0).1 ≡ true)
    ↔ (HasVoteFor ballot1 node0 × IsUpToDate ballot1 node0.log)
grant_example = grant_iff 2000 ballot1 node0

granted0 : (handle_vote_request 2000 ballot1 node0).1 ≡ true
unfolding handle_vote_request str_eq is_behind last_log_term
granted0 = refl

-- db-2 asks in between.
abbrev rival : VoteRequest
rival = record ballot1 { candidate_id = lit "db-2" }

granted_again :
    (handle_vote_request 3000 ballot1
      (handle_all (vote 2500 rival ∷ []) (handle_vote_request 2000 ballot1 node0).0)).1
    ≡ true
unfolding handle_vote_request handle_all handle str_eq is_behind last_log_term
granted_again = refl

vote_once_example : ballot1.candidate_id ≡ ballot1.candidate_id
vote_once_example =
    vote_once 2000 3000 ballot1 ballot1 (vote 2500 rival ∷ []) node0 (λ e. absurd (cc e)) tt
      granted0 granted_again refl

accept_example :
    ((handle_append_entries 2000 append1 node0).1 ≡ replied true) ↔ IsAccepted 2000 append1 node0
accept_example = accept_iff 2000 append1 node0

panic_example :
    ((handle_append_entries 2000 append1 node0).1 ≡ panicked)
    ↔ ((node0.current_term ≤ℤ append1.term) × IsBroken 2000 append1 node0)
panic_example = panic_iff 2000 append1 node0

accepted0 : (handle_append_entries 2000 append1 node0).1 ≡ replied true
accepted0 = (accept_iff 2000 append1 node0).1 (omega arith, inl (omega arith), inr (omega arith))

append_twice_example :
    ((handle_append_entries 4000 append1 (handle_append_entries 2000 append1 node0).0).1
      ≡ replied true)
    × ((handle_append_entries 4000 append1 (handle_append_entries 2000 append1 node0).0).0.log
        ≡ (handle_append_entries 2000 append1 node0).0.log)
append_twice_example = append_twice 2000 4000 append1 node0 accepted0

commit_kept_example :
    IsCommitted (handle_append_entries 2000 append1 committed0).0
    × (committed0.commit_index ≤ℤ (handle_append_entries 2000 append1 committed0).0.commit_index)
commit_kept_example = commit_kept 2000 append1 committed0 (omega arith) (inr (omega arith))

shorter_accepted : (handle_append_entries 2000 shorter committed0).1 ≡ replied true
shorter_accepted =
    (accept_iff 2000 shorter committed0).1 (omega arith, inl (omega arith), inr (omega arith))

committed_lost_example :
    pos (length (handle_append_entries 2000 shorter committed0).0.log)
    <ℤ (handle_append_entries 2000 shorter committed0).0.commit_index
committed_lost_example =
    committed_lost 2000 shorter committed0 shorter_accepted (λ e. absurd (cc e)) (omega arith)
      (omega arith)

-- db-2 asks for the vote after a heartbeat, with the log of the two entries.
abbrev late_ballot : VoteRequest
late_ballot = record rival { last_log_index = pos 2; last_log_term = pos 1 }

log-IsUpToDate : IsUpToDate late_ballot (handle_append_entries 2000 append1 node0).0.log
unfolding last_log_term handle_append_entries check_log append_entries store_entries slice_to
    advance_commit
log-IsUpToDate = inr (refl, omega arith)

append_reopens_vote_example :
    (handle_vote_request 3000 late_ballot (handle_append_entries 2000 append1 node0).0).1 ≡ true
append_reopens_vote_example =
    append_reopens_vote 2000 3000 append1 late_ballot node0 (omega arith) refl log-IsUpToDate

three_nodes : length (get_cluster_nodes node0) ≡ 3
three_nodes = (get_cluster_nodes_lem node0).0

elected_example :
    ((elected 2000 9 node0 (true ∷ [])).state ≡ leader)
    ↔ (length (get_cluster_nodes node0) < 2 * (1 + count_sent (true ∷ [])))
elected_example = elected_iff 2000 9 node0 (true ∷ []) (omega (arith, three_nodes))

both_elected_example :
    ((elected 2000 9 node0 (true ∷ [])).state ≡ leader)
    × ((elected 2000 4 node1 (true ∷ [])).state ≡ leader)
    × ((elected 2000 9 node0 (true ∷ [])).current_term
        ≡ (elected 2000 4 node1 (true ∷ [])).current_term)
both_elected_example =
    both_elected 2000 2000 9 4 node0 node1 (true ∷ []) (true ∷ []) refl (omega (arith, three_nodes))
      (three_nodes ∙ sym (get_cluster_nodes_lem node1).0) (omega (arith, three_nodes))
      (omega (arith, (get_cluster_nodes_lem node1).0))

other_name : lit "db-1" ≢ lit "db-0"
other_name e = omega (arith, ap last_byte e)

-- db-1 is one of the nodes.
other_node : In (lit "db-1") (get_cluster_nodes node0)
unfolding get_cluster_nodes names_from node_name show_ℕ
other_node = inr (inl refl)

become_leader_example :
    ((become_leader node0).0.state ≡ leader)
    × (index (pos 0) (become_leader node0).0.next_index (lit "db-1") ≡ pos 1)
    × (index (pos 0) (become_leader node0).0.match_index (lit "db-1") ≡ pos 0)
    × ((become_leader node0).0.voted_for ≡ [])
    × ((become_leader node0).0.log ≡ [])
    × ((become_leader node0).0.current_term ≡ pos 0)
    × ((become_leader node0).0.commit_index ≡ pos 0)
    × ((become_leader node0).0.cluster.status.raft_leader ≡ lit "db-0")
    × ((become_leader node0).0.cluster.status.raft_term ≡ pos 0)
become_leader_example = become_leader_lem node0 (lit "db-1") other_node other_name
