-- ===== src/Raft/World/Alone.antt =====
-- The node of a cluster with one replica.
use raft_based_mysql_cluster.Prelude.{
  ℕ, zero, suc, ◌≤◌, pos_part, Str, str_eq_refl, List, [], ◌∷◌, ◌++◌, ◌≡◌, ◌≢◌, ◌∙◌, refl, sym,
  subst, arith, All,
}
use raft_based_mysql_cluster.Api.{leader, MysqlCluster}
use raft_based_mysql_cluster.Raft.Node.{node_name, names_from, get_cluster_nodes, others}
use raft_based_mysql_cluster.Raft.Election.{start_election}
use raft_based_mysql_cluster.Raft.Steps.{force_election}
use raft_based_mysql_cluster.Raft.World.{
  World, Poll, Move, elect, ended, fail_over, publish, Run, begin, then_move, poll_started,
}

pub All-middle {ℓ} :
    {A : Type 0} (P : A → Type ℓ) (xs : List A) (y : A) (ys : List A) → All P (xs ++ y ∷ ys) → P y
All-middle P [] y ys h = h.0
All-middle P (x ∷ xs) y ys h = All-middle P xs y ys h.1

not_empty : {A : Type 0} (xs : List A) (y : A) (ys : List A) → xs ++ y ∷ ys ≢ []
not_empty [] y ys e = cc e
not_empty (x ∷ xs) y ys e = cc e

-- The node asks nobody, has no goroutine that goes on, and does not lead.
record IsAlone (w : World) : Type 0 where
  nobody : others w.node.node_id (get_cluster_nodes w.node) ≡ []
  idle : All (λ (p : Poll). p.unsent ≡ []) w.polls
  follows : w.node.state ≢ leader

others_alone : (name : Str) (n : ℕ) → n ≤ 1 → others (node_name name 0) (names_from name 0 n) ≡ []
unfolding others names_from
others_alone name zero h = refl
others_alone name (suc zero) h = rw (str_eq_refl (node_name name 0)) refl
others_alone name (suc (suc n)) h = absurd (omega arith)

Move-IsAlone : {w w' : World} → Move w w' → IsAlone w → IsAlone w'
unfolding poll_started start_election get_cluster_nodes force_election
Move-IsAlone {w} (elect now r due) h = record {
  nobody = h.nobody;
  idle = (h.nobody, h.idle);
  follows = λ e. cc e;
}
Move-IsAlone {w} (ended ok before after poll front back to at left) h =
    let none_left =
      All-middle (λ (p : Poll). p.unsent ≡ []) before poll after (subst (All _) at h.idle) in
    absurd (not_empty front to back (sym left ∙ none_left))
Move-IsAlone {w} fail_over h = ground arith
Move-IsAlone {w} (publish status) h = record {
  nobody = h.nobody;
  idle = h.idle;
  follows = h.follows;
}

Run-IsAlone :
    {cluster : MysqlCluster} {w : World}
    → pos_part cluster.spec.replicas ≤ 1
    → Run (node_name cluster.name 0) cluster w
    → IsAlone w
unfolding get_cluster_nodes
Run-IsAlone {cluster} few (begin r now) = record {
  nobody = others_alone cluster.name (pos_part cluster.spec.replicas) few;
  idle = tt;
  follows = λ e. cc e;
}
Run-IsAlone few (then_move run move) = Move-IsAlone move (Run-IsAlone few run)

-- In a cluster of at most one replica the node never leads.
pub alone_never_leads :
    {cluster : MysqlCluster} {w : World}
    → pos_part cluster.spec.replicas ≤ 1
    → Run (node_name cluster.name 0) cluster w
    → w.node.state ≢ leader
alone_never_leads few run = (Run-IsAlone few run).follows
