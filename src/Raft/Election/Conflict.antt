-- ===== src/Raft/Election/Conflict.antt =====
-- Elections of two nodes in one term.
use raft_based_mysql_cluster.Prelude.{
  ℕ, ◌+◌, ◌*◌, ◌≤◌, ◌<◌, ℤ, pos, int64, ◌+ℤ◌, Bool, true, false, List, [], ◌∷◌, ◌≡◌, refl, ap, sym,
  ◌∙◌, arith, length,
}
use raft_based_mysql_cluster.Api.{leader}
use raft_based_mysql_cluster.Raft.Clock.{Time}
use raft_based_mysql_cluster.Raft.Node.{RaftManager, get_cluster_nodes}
use raft_based_mysql_cluster.Raft.Election.{
  Ballot, start_election, become_leader, vote_request_sent,
}
use raft_based_mysql_cluster.Raft.Election.Tally.{tally, count_sent, elected, elected_iff}

pub term-vote_request_sent :
    (sent : Bool) (ballot : Ballot) (rm : RaftManager)
    → (vote_request_sent sent ballot rm).0.current_term ≡ rm.current_term
unfolding vote_request_sent become_leader
term-vote_request_sent true ballot rm = ground arith
term-vote_request_sent false ballot rm = refl

pub term-tally :
    (replies : List Bool) (ballot : Ballot) (rm : RaftManager)
    → (tally replies ballot rm).current_term ≡ rm.current_term
unfolding tally
term-tally [] ballot rm = refl
term-tally (sent ∷ rest) ballot rm = term-tally rest _ _ ∙ term-vote_request_sent sent ballot rm

term-elected :
    (now : Time) (r : ℕ) (rm : RaftManager) (replies : List Bool)
    → (elected now r rm replies).current_term ≡ int64 (rm.current_term +ℤ pos 1)
unfolding start_election
term-elected now r rm replies = term-tally replies _ _

-- Any two nodes of a cluster of two or more that are in the same term and hold an election both
-- lead the same next term, whatever each has voted, once each could send its requests to so many
-- peers that with itself they are more than half of the nodes.
pub both_elected :
    (now now' : Time) (r r' : ℕ) (a b : RaftManager) (ra rb : List Bool)
    → a.current_term ≡ b.current_term
    → 2 ≤ length (get_cluster_nodes a)
    → length (get_cluster_nodes a) ≡ length (get_cluster_nodes b)
    → length (get_cluster_nodes a) < 2 * (1 + count_sent ra)
    → length (get_cluster_nodes b) < 2 * (1 + count_sent rb)
    → ((elected now r a ra).state ≡ leader)
      × ((elected now' r' b rb).state ≡ leader)
      × ((elected now r a ra).current_term ≡ (elected now' r' b rb).current_term)
both_elected now now' r r' a b ra rb same two size wa wb = (
  (elected_iff now r a ra two).1 wa,
  (elected_iff now' r' b rb (rw (← size) two)).1 wb,
  term-elected now r a ra
      ∙ ap (λ (t : ℤ). int64 (t +ℤ pos 1)) same
      ∙ sym (term-elected now' r' b rb),
)
