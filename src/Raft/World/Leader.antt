-- ===== src/Raft/World/Leader.antt =====
-- A node that leads, over time.
use raft_based_mysql_cluster.Prelude.{ℤ, Bool, true, false, ◌≡◌, refl, arith}
use raft_based_mysql_cluster.Api.{leader}
use raft_based_mysql_cluster.Raft.Clock.{Time}
use raft_based_mysql_cluster.Raft.Node.{RaftManager}
use raft_based_mysql_cluster.Raft.Election.{Ballot, election_due, vote_request_sent}
use raft_based_mysql_cluster.Raft.Steps.{force_election}
use raft_based_mysql_cluster.Raft.World.{
  World, Move, elect, ended, fail_over, publish, goroutine_ended,
}

-- Any number of moves.
pub data Moves (w : World) : World → Type 0 where
  none_yet : Moves w w
  one_more : {v v' : World} → Moves w v → Move v v' → Moves w v'

-- The node leads in the term `t`.
abbrev pub LeadsIn : ℤ → RaftManager → Type 0
LeadsIn t rm = (rm.state ≡ leader) × (rm.current_term ≡ t)

sent_idle :
    (ok : Bool) (ballot : Ballot) (rm : RaftManager)
    → rm.state ≡ leader
    → (vote_request_sent ok ballot rm).0 ≡ rm
unfolding vote_request_sent
sent_idle true ballot rm h = ground arith
sent_idle false ballot rm h = refl

due_idle : (now : Time) (rm : RaftManager) → rm.state ≡ leader → election_due now rm ≡ false
unfolding election_due
due_idle now rm h = ground arith

Move-LeadsIn : {w w' : World} {t : ℤ} → Move w w' → LeadsIn t w.node → LeadsIn t w'.node
unfolding goroutine_ended
Move-LeadsIn {w} (elect now r due) h = absurd (cc (due_idle now w.node h.0, due))
Move-LeadsIn {w} (ended ok before after poll front back to at left) h =
    rw (sent_idle ok poll.ballot w.node h.0) h
Move-LeadsIn {w} fail_over h = unfold force_election in ground arith
Move-LeadsIn {w} (publish status) h = h

-- Once the node leads, it leads in the same term after whatever moves of the program, a failover
-- included: nothing in the repository makes a leader step down.
pub leads_forever : {w w' : World} {t : ℤ} → Moves w w' → LeadsIn t w.node → LeadsIn t w'.node
leads_forever none_yet h = h
leads_forever (one_more moves move) h = Move-LeadsIn move (leads_forever moves h)
