-- ===== src/Raft/Election/Tally.antt =====
-- When an election makes the node the leader.
use raft_based_mysql_cluster.Prelude.{
  ℕ, suc, ◌+◌, ◌*◌, ◌≤◌, ◌<◌, Bool, true, false, List, [], ◌∷◌, ◌≡◌, ◌↔◌, refl, arith, length,
  dec_lt,
}
use raft_based_mysql_cluster.Api.{candidate, leader}
use raft_based_mysql_cluster.Raft.Clock.{Time}
use raft_based_mysql_cluster.Raft.Node.{RaftManager, get_cluster_nodes}
use raft_based_mysql_cluster.Raft.Election.{
  Ballot, start_election, become_leader, vote_request_sent,
}

-- The goroutines of one ballot end one after the other, each with the result of sendVoteRequest.
unfoldable pub tally : List Bool → Ballot → RaftManager → RaftManager
tally [] ballot rm = rm
tally (sent ∷ rest) ballot rm =
    let (rm', ballot', _) = vote_request_sent sent ballot rm in tally rest ballot' rm'

-- The requests that could be sent.
abbrev pub count_sent : List Bool → ℕ
count_sent [] = 0
count_sent (true ∷ rest) = suc (count_sent rest)
count_sent (false ∷ rest) = count_sent rest

state-become_leader : (rm : RaftManager) → (become_leader rm).0.state ≡ leader
unfolding become_leader
state-become_leader rm = refl

sent-leader :
    (sent : Bool) (ballot : Ballot) (rm : RaftManager)
    → rm.state ≡ leader
    → (vote_request_sent sent ballot rm).0.state ≡ leader
unfolding vote_request_sent
sent-leader true ballot rm h = ground arith
sent-leader false ballot rm h = h

tally-leader :
    (replies : List Bool) (ballot : Ballot) (rm : RaftManager)
    → rm.state ≡ leader
    → (tally replies ballot rm).state ≡ leader
unfolding tally
tally-leader [] ballot rm h = h
tally-leader (sent ∷ rest) ballot rm h = tally-leader rest _ _ (sent-leader sent ballot rm h)

sent-won :
    (ballot : Ballot) (rm : RaftManager)
    → rm.state ≡ candidate
    → ballot.majority ≤ ballot.votes + 1
    → (vote_request_sent true ballot rm).0.state ≡ leader
unfolding vote_request_sent become_leader
sent-won ballot rm h enough = ground arith

sent-open :
    (ballot : Ballot) (rm : RaftManager)
    → ballot.votes + 1 < ballot.majority
    → vote_request_sent true ballot rm ≡ (rm, record ballot { votes = ballot.votes + 1 }, [])
unfolding vote_request_sent
sent-open ballot rm short = ground arith

-- One more request sent, while the majority is not reached.
tally-open :
    (rest : List Bool) (ballot : Ballot) (rm : RaftManager)
    → ballot.votes + 1 < ballot.majority
    → tally (true ∷ rest) ballot rm ≡ tally rest (record ballot { votes = ballot.votes + 1 }) rm
unfolding tally
tally-open rest ballot rm short = rw (sent-open ballot rm short)

tally-nil : (ballot : Ballot) (rm : RaftManager) → (tally [] ballot rm).state ≡ rm.state
unfolding tally
tally-nil ballot rm = refl

tally-failed :
    (rest : List Bool) (ballot : Ballot) (rm : RaftManager)
    → tally (false ∷ rest) ballot rm ≡ tally rest ballot rm
unfolding tally vote_request_sent
tally-failed rest ballot rm = refl

tally-won :
    (rest : List Bool) (ballot : Ballot) (rm : RaftManager)
    → rm.state ≡ candidate
    → ballot.majority ≤ ballot.votes + 1
    → (tally (true ∷ rest) ballot rm).state ≡ leader
unfolding tally
tally-won rest ballot rm h enough = tally-leader rest _ _ (sent-won ballot rm h enough)

pub tally-candidate :
    (replies : List Bool) (ballot : Ballot) (rm : RaftManager)
    → rm.state ≡ candidate
    → ballot.votes < ballot.majority
    → ((tally replies ballot rm).state ≡ leader)
      ↔ (ballot.majority ≤ ballot.votes + count_sent replies)
tally-candidate [] ballot rm h few = (λ e. cc (tally-nil ballot rm), λ le. absurd (omega arith))
tally-candidate (false ∷ rest) ballot rm h few =
    rw tally-failed (tally-candidate rest ballot rm h few)
tally-candidate (true ∷ rest) ballot rm h few = elim (dec_lt (ballot.votes + 1) ballot.majority) [
  | yes short ↦
      let ih = tally-candidate rest (record ballot { votes = ballot.votes + 1 }) rm h short in
      rw (tally-open rest ballot rm short) (λ e. omega (arith, ih.0 e), λ le. ih.1 (omega arith))
  | no won ↦ (λ e. omega arith, λ le. tally-won rest ballot rm h (omega arith))
]

module _ (now : Time) (r : ℕ) (rm : RaftManager) (replies : List Bool) where
  -- The node after an election whose goroutines ended with `replies`.
  abbrev pub elected : RaftManager
  elected = let (rm', ballot, _) = start_election now r rm in tally replies ballot rm'

  -- In a cluster of at least two nodes an election makes the node the leader exactly if itself and
  -- the peers to which the request could be sent are more than half of the nodes. The answers of
  -- the peers do not enter.
  pub elected_iff :
      2 ≤ length (get_cluster_nodes rm)
      → (elected.state ≡ leader) ↔ (length (get_cluster_nodes rm) < 2 * (1 + count_sent replies))
  unfolding start_election get_cluster_nodes
  elected_iff two =
      let (wins, won) =
        tally-candidate replies (start_election now r rm).1 (start_election now r rm).0 refl
          (omega arith) in
      (λ e. omega (arith, wins e), λ lt. won (omega arith))
