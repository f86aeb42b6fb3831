-- ===== src/Raft/Vote/Once.antt =====
-- One vote a term: along vote requests and the node's own elections.
use raft_based_mysql_cluster.Prelude.{
  ℕ, ℤ, pos, ◌<ℤ◌, Str, str_eq_iff, true, List, [], ◌∷◌, ◌≡◌, ◌≢◌, ◌⊎◌, inl, inr, arith,
  eq_of_parts, max_int64, IsInt64, int64, int64-succ, ◌+ℤ◌,
}
use raft_based_mysql_cluster.Raft.Clock.{Time}
use raft_based_mysql_cluster.Raft.Node.{RaftManager}
use raft_based_mysql_cluster.Raft.Vote.{VoteRequest, handle_vote_request}
use raft_based_mysql_cluster.Raft.Election.{start_election}

-- The node's vote in the term `t` is `c`'s, or the term has passed.
abbrev pub IsPledged : ℤ → Str → RaftManager → Type 0
IsPledged t c rm = ((rm.current_term ≡ t) × (rm.voted_for ≡ c)) ⊎ (t <ℤ rm.current_term)

-- What happens to a node that no leader writes to.
pub data Event : Type 0 where
  vote : Time → VoteRequest → Event
  election : Time → ℕ → Event

unfoldable pub handle : Event → RaftManager → RaftManager
handle (vote now req) rm = (handle_vote_request now req rm).0
handle (election now r) rm = (start_election now r rm).0

unfoldable pub handle_all : List Event → RaftManager → RaftManager
handle_all [] rm = rm
handle_all (e ∷ es) rm = handle_all es (handle e rm)

pledge :
    (now : Time) (req : VoteRequest) (rm : RaftManager)
    → (handle_vote_request now req rm).1 ≡ true
    → IsPledged req.term req.candidate_id (handle_vote_request now req rm).0
unfolding handle_vote_request
pledge now req rm h = ground (arith, eq_of_parts rm.current_term req.term)

vote_keeps :
    (t : ℤ) (c : Str) (now : Time) (req : VoteRequest) (rm : RaftManager)
    → c ≢ []
    → IsPledged t c rm
    → IsPledged t c (handle_vote_request now req rm).0
unfolding handle_vote_request
vote_keeps t c now req rm ne h =
    ground (
      arith,
      str_eq_iff rm.voted_for [],
      str_eq_iff rm.voted_for req.candidate_id,
      str_eq_iff [] [],
    )

-- A term that can still be counted up.
abbrev pub IsOpen : RaftManager → Type 0
IsOpen rm = IsInt64 rm.current_term × (rm.current_term <ℤ max_int64)

-- The counter of terms does not overflow in an election of the run.
abbrev pub HasRoom : List Event → RaftManager → Type 0
HasRoom [] rm = Unit
HasRoom (vote now req ∷ es) rm = HasRoom es (handle (vote now req) rm)
HasRoom (election now r ∷ es) rm = IsOpen rm × HasRoom es (handle (election now r) rm)

next_term : (t z : ℤ) → IsInt64 z → z <ℤ max_int64 → (z ≡ t) ⊎ (t <ℤ z) → t <ℤ int64 (z +ℤ pos 1)
next_term t z range room (inl e) = rw (← e) (int64-succ z range room)
next_term t z range room (inr lt) = omega (arith, int64-succ z range room)

election_keeps :
    (t : ℤ) (c : Str) (now : Time) (r : ℕ) (rm : RaftManager)
    → IsOpen rm
    → IsPledged t c rm
    → IsPledged t c (start_election now r rm).0
unfolding start_election
election_keeps t c now r rm room h =
    inr
      (next_term t rm.current_term room.0 room.1 (elim h [ inl (e, _) ↦ inl e | inr lt ↦ inr lt ]))

run_keeps :
    (t : ℤ) (c : Str) (es : List Event) (rm : RaftManager)
    → c ≢ []
    → HasRoom es rm
    → IsPledged t c rm
    → IsPledged t c (handle_all es rm)
unfolding handle_all handle
run_keeps t c [] rm ne room h = h
run_keeps t c (vote now req ∷ es) rm ne room h =
    run_keeps t c es _ ne room (vote_keeps t c now req rm ne h)
run_keeps t c (election now r ∷ es) rm ne room h =
    run_keeps t c es _ ne room.1 (election_keeps t c now r rm room.0 h)

-- A pledged node that grants a vote in the term grants it to the same candidate.
grant_pledged :
    (t : ℤ) (c : Str) (now : Time) (req : VoteRequest) (rm : RaftManager)
    → c ≢ []
    → IsPledged t c rm
    → (handle_vote_request now req rm).1 ≡ true
    → t ≡ req.term
    → c ≡ req.candidate_id
unfolding handle_vote_request
grant_pledged t c now req rm ne h g e =
    ground (arith, str_eq_iff rm.voted_for [], str_eq_iff rm.voted_for req.candidate_id)

-- After a node has granted its vote in a term to a named candidate, and then handled any vote
-- requests and held any elections of its own in which the term does not overflow, a vote that it
-- grants in that term goes to the same candidate.
pub vote_once :
    (now later : Time) (first second : VoteRequest) (es : List Event) (rm : RaftManager)
    → first.candidate_id ≢ []
    → HasRoom es (handle_vote_request now first rm).0
    → (handle_vote_request now first rm).1 ≡ true
    → (handle_vote_request later second (handle_all es (handle_vote_request now first rm).0)).1
      ≡ true
    → first.term ≡ second.term
    → first.candidate_id ≡ second.candidate_id
vote_once now later first second es rm ne room g g' e =
    grant_pledged first.term first.candidate_id later second _ ne
      (run_keeps first.term first.candidate_id es _ ne room (pledge now first rm g)) g' e
