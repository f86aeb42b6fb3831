-- ===== src/Raft/World/Count.antt =====
-- The votes behind a node that leads.
use raft_based_mysql_cluster.Prelude.{
  ℕ, suc, ◌+◌, ◌*◌, ◌/◌, ◌≤◌, ◌<◌, pos_part, Str, Bool, true, false, List, [], ◌∷◌, ◌++◌, ◌≡◌, ◌⊎◌,
  inl, inr, ◌∙◌, refl, ap, subst, arith, All, In, length, sym, Distinct, ◌≢◌,
}
use raft_based_mysql_cluster.Api.{leader, MysqlCluster}
use raft_based_mysql_cluster.Raft.Clock.{Time}
use raft_based_mysql_cluster.Raft.Node.{
  RaftManager, node_name, get_cluster_nodes, others, new_raft_manager,
}
use raft_based_mysql_cluster.Raft.Node.Names.{
  get_cluster_nodes_lem, length-others, Distinct-others, In-others,
}
use raft_based_mysql_cluster.Raft.Election.{
  Ballot, start_election, vote_request_sent, become_leader,
}
use raft_based_mysql_cluster.Raft.Steps.{force_election}
use raft_based_mysql_cluster.Raft.World.Fair.{IsFair, ended-IsFair, In-left, reached-Distinct}
use raft_based_mysql_cluster.Raft.World.{
  World, Poll, Move, elect, ended, fail_over, publish, Run, begin, then_move, poll_started,
  goroutine_ended,
}

-- Some poll has reached its majority.
abbrev IsWon : List Poll → Type 0
IsWon [] = ⊥
IsWon (p ∷ polls) = (p.ballot.majority ≤ p.ballot.votes) ⊎ IsWon polls

-- The polls after one of them has changed.
All-replace :
    (me : Str) (nodes : List Str) (before : List Poll) (p q : Poll) (after : List Poll)
    → (IsFair me nodes p → IsFair me nodes q)
    → All (IsFair me nodes) (before ++ p ∷ after)
    → All (IsFair me nodes) (before ++ q ∷ after)
All-replace me nodes [] p q after f h = (f h.0, h.1)
All-replace me nodes (x ∷ before) p q after f h = (h.0, All-replace me nodes before p q after f h.1)

IsWon-replace :
    (before : List Poll) (p q : Poll) (after : List Poll)
    → (p.ballot.majority ≤ p.ballot.votes → q.ballot.majority ≤ q.ballot.votes)
    → IsWon (before ++ p ∷ after)
    → IsWon (before ++ q ∷ after)
IsWon-replace [] p q after f (inl h) = inl (f h)
IsWon-replace [] p q after f (inr h) = inr h
IsWon-replace (x ∷ before) p q after f (inl h) = inl h
IsWon-replace (x ∷ before) p q after f (inr h) = inr (IsWon-replace before p q after f h)

IsWon-middle :
    (before : List Poll) (q : Poll) (after : List Poll)
    → q.ballot.majority ≤ q.ballot.votes
    → IsWon (before ++ q ∷ after)
IsWon-middle [] q after h = inl h
IsWon-middle (x ∷ before) q after h = inr (IsWon-middle before q after h)

record IsCounted (me : Str) (nodes : List Str) (w : World) : Type 0 where
  itself : w.node.node_id ≡ me
  all : get_cluster_nodes w.node ≡ nodes
  beside : suc (length (others me nodes)) ≡ length nodes
  distinct : Distinct nodes
  fair : All (IsFair me nodes) w.polls
  won : w.node.state ≡ leader → IsWon w.polls

-- What the end of a goroutine does to the node.
ended-won :
    (ok : Bool) (ballot : Ballot) (rm : RaftManager)
    → (vote_request_sent ok ballot rm).0.state ≡ leader
    → (rm.state ≡ leader)
      ⊎ ((vote_request_sent ok ballot rm).1.majority ≤ (vote_request_sent ok ballot rm).1.votes)
unfolding vote_request_sent
ended-won true ballot rm h = ground arith
ended-won false ballot rm h = inl h

ended-le :
    (ok : Bool) (ballot : Ballot) (rm : RaftManager)
    → ballot.majority ≤ ballot.votes
    → (vote_request_sent ok ballot rm).1.majority ≤ (vote_request_sent ok ballot rm).1.votes
unfolding vote_request_sent
ended-le true ballot rm h = ground arith
ended-le false ballot rm h = h

ended-nodes :
    (ok : Bool) (ballot : Ballot) (rm : RaftManager)
    → ((vote_request_sent ok ballot rm).0.node_id ≡ rm.node_id)
      × (get_cluster_nodes (vote_request_sent ok ballot rm).0 ≡ get_cluster_nodes rm)
unfolding vote_request_sent become_leader get_cluster_nodes
ended-nodes true ballot rm = ground arith
ended-nodes false ballot rm = (refl, refl)

forced-nodes :
    (rm : RaftManager)
    → ((force_election rm).node_id ≡ rm.node_id)
      × (get_cluster_nodes (force_election rm) ≡ get_cluster_nodes rm)
unfolding force_election get_cluster_nodes
forced-nodes rm = ground arith

forced-leader : (rm : RaftManager) → (force_election rm).state ≡ leader → rm.state ≡ leader
unfolding force_election
forced-leader rm h = ground arith

elected-IsCounted :
    (me : Str) (nodes : List Str) (now : Time) (r : ℕ) (w : World)
    → IsCounted me nodes w
    → IsCounted me nodes (poll_started now r w)
unfolding poll_started start_election get_cluster_nodes
elected-IsCounted me nodes now r w h =
    let asked : others w.node.node_id (get_cluster_nodes w.node) ≡ others me nodes =
      rw (h.itself, h.all) refl in
    record {
      itself = h.itself;
      all = h.all;
      beside = h.beside;
      distinct = h.distinct;
      fair = (
        (
          ap (λ l. length l / 2 + 1) h.all,
          refl,
          omega (arith, h.beside, ap length asked),
          subst (λ l. Distinct l) (sym asked) (Distinct-others me nodes h.distinct),
          λ x m. subst (λ l. In x l) asked m,
        ),
        h.fair,
      );
      won = λ e. cc e;
    }

-- The end of a goroutine.
answered-IsCounted :
    (me : Str) (nodes : List Str) (ok : Bool) (before after : List Poll) (poll : Poll)
    (front back : List Str) (to : Str) (w : World)
    → w.polls ≡ before ++ poll ∷ after
    → poll.unsent ≡ front ++ to ∷ back
    → IsCounted me nodes w
    → IsCounted me nodes (goroutine_ended ok before poll after to (front ++ back) w.node)
unfolding goroutine_ended
answered-IsCounted me nodes ok before after poll front back to w at left h =
    let same = ended-nodes ok poll.ballot w.node in
    record {
      itself = same.0 ∙ h.itself;
      all = same.1 ∙ h.all;
      beside = h.beside;
      distinct = h.distinct;
      fair =
          All-replace me nodes before poll _ after
            (ended-IsFair me nodes ok poll front back to w.node left)
            (subst (All (IsFair me nodes)) at h.fair);
      won = λ e. elim (ended-won ok poll.ballot w.node e) [
        | inl led ↦
            IsWon-replace before poll _ after (ended-le ok poll.ballot w.node)
              (subst IsWon at (h.won led))
        | inr enough ↦ IsWon-middle before _ after enough
      ];
    }

Move-IsCounted :
    {me : Str} {nodes : List Str} {w w' : World}
    → Move w w'
    → IsCounted me nodes w
    → IsCounted me nodes w'
Move-IsCounted {me} {nodes} {w} (elect now r due) h = elected-IsCounted me nodes now r w h
Move-IsCounted {me} {nodes} {w} (ended ok before after poll front back to at left) h =
    answered-IsCounted me nodes ok before after poll front back to w at left h
Move-IsCounted {me} {nodes} {w} fail_over h = record {
  itself = (forced-nodes w.node).0 ∙ h.itself;
  all = (forced-nodes w.node).1 ∙ h.all;
  beside = h.beside;
  distinct = h.distinct;
  fair = h.fair;
  won = λ e. h.won (forced-leader w.node e);
}
Move-IsCounted {me} {nodes} {w} (publish status) h =
    unfold get_cluster_nodes in
    record {
      itself = h.itself;
      all = h.all;
      beside = h.beside;
      distinct = h.distinct;
      fair = h.fair;
      won = h.won;
    }

Run-IsCounted :
    {cluster : MysqlCluster} {w : World}
    → 1 ≤ pos_part cluster.spec.replicas
    → Run (node_name cluster.name 0) cluster w
    → (nodes : List Str) × IsCounted (node_name cluster.name 0) nodes w
      × (length nodes ≡ pos_part cluster.spec.replicas)
Run-IsCounted {cluster} some (begin r now) =
    let rm = new_raft_manager (node_name cluster.name 0) cluster r now in
    let (size, distinct, names) = get_cluster_nodes_lem rm in
    (
      get_cluster_nodes rm,
      record {
        itself = refl;
        all = refl;
        beside =
            length-others (node_name cluster.name 0) (get_cluster_nodes rm) distinct
              ((names (node_name cluster.name 0)).1 (0, omega arith, refl));
        distinct = distinct;
        fair = tt;
        won = λ e. cc e;
      },
      size,
    )
Run-IsCounted some (then_move run move) =
    let (nodes, h, size) = Run-IsCounted some run in (nodes, Move-IsCounted move h, size)

won_poll :
    (me : Str) (nodes : List Str) (polls : List Poll)
    → All (IsFair me nodes) polls
    → IsWon polls
    → (p : Poll) × In p polls × (p.ballot.majority ≤ p.ballot.votes) × IsFair me nodes p
won_poll me nodes [] h m = elim m [ ]
won_poll me nodes (p ∷ polls) h (inl won) = (p, inl refl, won, h.0)
won_poll me nodes (p ∷ polls) h (inr won) =
    let (q, i, most, fair) = won_poll me nodes polls h.1 won in (q, inr i, most, fair)

-- Whenever the node of a cluster of at least one replica leads, one of the elections that it has
-- held counted itself and the nodes that were reached by a request. These are all different nodes of
-- the cluster and none of them is the node itself, and with it they are more than half of the
-- cluster's nodes.
pub leader_counted :
    {cluster : MysqlCluster} {w : World}
    → 1 ≤ pos_part cluster.spec.replicas
    → Run (node_name cluster.name 0) cluster w
    → w.node.state ≡ leader
    → (p : Poll) × In p w.polls
      × (p.ballot.votes ≡ suc (length p.reached))
      × Distinct p.reached
      × ((x : Str)
          → In x p.reached
          → In x (get_cluster_nodes w.node) × (x ≢ node_name cluster.name 0))
      × (pos_part cluster.spec.replicas < 2 * p.ballot.votes)
      × (p.ballot.votes ≤ pos_part cluster.spec.replicas)
leader_counted {cluster} {w} some run led =
    let me = node_name cluster.name 0 in
    let (nodes, h, size) = Run-IsCounted some run in
    let (p, i, won, (most, votes, few, distinct, names)) =
      won_poll me nodes w.polls h.fair (h.won led) in
    (
      p,
      i,
      votes,
      reached-Distinct p.reached p.unsent distinct,
      λ x m.
          let (in_nodes, ne) =
            (In-others me x nodes).0 (names x (In-left x p.reached p.unsent m)) in
          (subst (λ l. In x l) (sym h.all) in_nodes, ne),
      omega (arith, won, most, size),
      omega (arith, few, size),
    )
