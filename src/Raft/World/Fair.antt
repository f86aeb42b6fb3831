-- ===== src/Raft/World/Fair.antt =====
-- What a poll has counted: the nodes that were reached, each once.
use raft_based_mysql_cluster.Prelude.{
  suc, ◌+◌, ◌/◌, ◌≤◌, Str, Bool, true, List, [], ◌∷◌, ◌++◌, ◌≡◌, inl, inr, ap, subst, arith, In,
  length, length-append, sym, Distinct, Bool-cases, if◌then◌else◌,
}
use mathlib.Core.List.{append_assoc}
use raft_based_mysql_cluster.Raft.Node.{RaftManager, others}
use raft_based_mysql_cluster.Raft.Election.{Ballot, vote_request_sent}
use raft_based_mysql_cluster.Raft.World.{Poll}

-- The poll of `me` asks for a majority of the nodes, and counts itself and the nodes it has reached;
-- these and those that are still asked are other nodes, and no two are alike.
abbrev pub IsFair : Str → List Str → Poll → Type 0
IsFair me nodes p =
    (p.ballot.majority ≡ length nodes / 2 + 1)
    × (p.ballot.votes ≡ suc (length p.reached))
    × (p.ballot.votes + length p.unsent ≤ length nodes)
    × Distinct (p.reached ++ p.unsent)
    × ((x : Str) → In x (p.reached ++ p.unsent) → In x (others me nodes))

-- An element between two lists, taken to the front.
In-pull :
    (y : Str) (pre : List Str) (x : Str) (bs : List Str)
    → In y (x ∷ pre ++ bs)
    → In y (pre ++ x ∷ bs)
In-pull y [] x bs m = m
In-pull y (a ∷ pre) x bs (inl e) = inr (In-pull y pre x bs (inl e))
In-pull y (a ∷ pre) x bs (inr (inl e)) = inl e
In-pull y (a ∷ pre) x bs (inr (inr m)) = inr (In-pull y pre x bs (inr m))

In-skip :
    (y : Str) (pre : List Str) (x : Str) (bs : List Str) → In y (pre ++ bs) → In y (pre ++ x ∷ bs)
In-skip y pre x bs m = In-pull y pre x bs (inr m)

Distinct-pull :
    (pre : List Str) (x : Str) (bs : List Str) → Distinct (pre ++ x ∷ bs) → Distinct (x ∷ pre ++ bs)
Distinct-pull [] x bs d = d
Distinct-pull (a ∷ pre) x bs (new, d) =
    let (fresh, rest) = Distinct-pull pre x bs d in
    (
      λ m. elim m [ inl e ↦ new (In-pull a pre x bs (inl (sym e))) | inr m' ↦ fresh m' ],
      (λ m. new (In-skip a pre x bs m), rest),
    )

sent-votes :
    (ballot : Ballot) (rm : RaftManager)
    → ((vote_request_sent true ballot rm).1.majority ≡ ballot.majority)
      × ((vote_request_sent true ballot rm).1.votes ≡ suc ballot.votes)
unfolding vote_request_sent
sent-votes ballot rm = ground arith

-- What the end of a goroutine does to its poll.
pub ended-IsFair :
    (me : Str) (nodes : List Str) (ok : Bool) (poll : Poll) (front back : List Str) (to : Str)
    (rm : RaftManager)
    → poll.unsent ≡ front ++ to ∷ back
    → IsFair me nodes poll
    → IsFair me nodes (record {
      ballot = (vote_request_sent ok poll.ballot rm).1;
      unsent = front ++ back;
      reached = if ok then to ∷ poll.reached else poll.reached;
    })
unfolding vote_request_sent
ended-IsFair me nodes ok poll front back to rm left (most, votes, few, distinct, names) =
    let split : poll.reached ++ poll.unsent ≡ (poll.reached ++ front) ++ to ∷ back =
      rw left (sym (append_assoc poll.reached front (to ∷ back))) in
    let less : length poll.unsent ≡ suc (length (front ++ back)) =
      rw (left, length-append front (to ∷ back), length-append front back) (omega arith) in
    let (new, rest) =
      Distinct-pull (poll.reached ++ front) to back (subst (λ l. Distinct l) split distinct) in
    let joined = append_assoc poll.reached front back in
    let known = λ (x : Str) (m : In x (to ∷ poll.reached ++ (front ++ back))). names x (
      subst (λ l. In x l) (sym split)
        (In-pull x (poll.reached ++ front) to back (subst (λ l. In x (to ∷ l)) (sym joined) m))) in
    elim (Bool-cases ok) [
      | inl sent ↦
          rw (sent, (sent-votes poll.ballot rm).0, (sent-votes poll.ballot rm).1)
            (
              most,
              ap suc votes,
              omega (arith, less, few),
              subst (λ l. Distinct (to ∷ l)) joined (new, rest),
              known,
            )
      | inr not_sent ↦ rw not_sent (
        most,
        votes,
        omega (arith, less, few),
        subst (λ l. Distinct l) joined rest,
        λ x m. known x (inr m),
      )
    ]

pub In-left : (x : Str) (pre bs : List Str) → In x pre → In x (pre ++ bs)
In-left x [] bs m = elim m [ ]
In-left x (a ∷ pre) bs (inl e) = inl e
In-left x (a ∷ pre) bs (inr m) = inr (In-left x pre bs m)

pub reached-Distinct : (pre bs : List Str) → Distinct (pre ++ bs) → Distinct pre
reached-Distinct [] bs d = tt
reached-Distinct (a ∷ pre) bs (new, d) = (λ m. new (In-left a pre bs m), reached-Distinct pre bs d)
