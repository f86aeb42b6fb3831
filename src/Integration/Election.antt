-- ===== src/Integration/Election.antt =====
-- The master that the election by Raft returns.
use raft_based_mysql_cluster.Prelude.{
  Str, true, false, List, [], ◌∷◌, ◌≡◌, ◌≢◌, inl, inr, ◌↔◌, refl, ap, ◌∙◌, arith, subst, sym, In,
  Bool-cases,
}
use raft_based_mysql_cluster.Api.{RaftState, leader}
use raft_based_mysql_cluster.Go.{Result, ok, err, waiting, panic}
use raft_based_mysql_cluster.Raft.Node.{RaftManager, get_cluster_nodes, others}
use raft_based_mysql_cluster.Raft.Node.Names.{In-others}
use raft_based_mysql_cluster.Raft.Election.{is_leader}
use raft_based_mysql_cluster.Integration.{raft_based_master_election}

-- What the election returns of a node that leads: the node as the master, and the other nodes of
-- its cluster as the slaves.
abbrev pub IsVerdict : List RaftManager → Str → List Str → Type 0
IsVerdict observed master slaves =
    (rm : RaftManager) × In rm observed
    × (rm.state ≡ leader)
    × (master ≡ rm.node_id)
    × ((x : Str) → In x slaves ↔ (In x (get_cluster_nodes rm) × (x ≢ master)))

is_leader_iff : (s : RaftState) → (is_leader s ≡ true) ↔ (s ≡ leader)
is_leader_iff s = ground arith

election_at-leader :
    (rm : RaftManager) (later : List RaftManager)
    → is_leader rm.state ≡ true
    → raft_based_master_election (rm ∷ later)
      ≡ ok (rm.node_id, others rm.node_id (get_cluster_nodes rm))
unfolding raft_based_master_election
election_at-leader rm later e = rw e

election_past :
    (rm : RaftManager) (later : List RaftManager)
    → is_leader rm.state ≡ false
    → raft_based_master_election (rm ∷ later) ≡ raft_based_master_election later
unfolding raft_based_master_election
election_past rm later e = rw e

answer_or : Str × List Str → Result (Str × List Str) → Str × List Str
answer_or d (ok a) = a
answer_or d (err e) = d
answer_or d waiting = d
answer_or d panic = d

-- The verdict of the node that leads.
leader-IsVerdict :
    (rm : RaftManager) (later : List RaftManager)
    → rm.state ≡ leader
    → IsVerdict (rm ∷ later) rm.node_id (others rm.node_id (get_cluster_nodes rm))
leader-IsVerdict rm later l =
    (rm, inl refl, l, refl, λ x. In-others rm.node_id x (get_cluster_nodes rm))

-- If the election by Raft returns a master, the node led in some round, is that master, and the
-- slaves are the other nodes of its cluster.
pub election_sound :
    (observed : List RaftManager) (master : Str) (slaves : List Str)
    → raft_based_master_election observed ≡ ok (master, slaves)
    → IsVerdict observed master slaves
unfolding answer_or
election_sound [] master slaves h = unfold raft_based_master_election in absurd (cc h)
election_sound (rm ∷ later) master slaves h = elim (Bool-cases (is_leader rm.state)) [
  | inl e ↦
      let same = ap (answer_or (master, slaves)) (sym (election_at-leader rm later e) ∙ h) in
      subst (λ a. IsVerdict (rm ∷ later) a.0 a.1) same
        (leader-IsVerdict rm later ((is_leader_iff rm.state).0 e))
  | inr e ↦
      let (rm', i, l, e', slaves') =
        election_sound later master slaves (sym (election_past rm later e) ∙ h) in
      (rm', inr i, l, e', slaves')
]

elected_some :
    (observed : List RaftManager)
    → ((rm : RaftManager) × In rm observed × (rm.state ≡ leader))
    → (master : Str) × (slaves : List Str) × (raft_based_master_election observed
        ≡ ok (master, slaves))
elected_some [] (rm, i, l) = elim i [ ]
elected_some (rm ∷ later) (rm', i, l) = elim (Bool-cases (is_leader rm.state)) [
  | inl e ↦ (_, _, election_at-leader rm later e)
  | inr e ↦ elim i [
    | inl same ↦ absurd (cc (e, (is_leader_iff rm.state).1 (ap (λ n. n.state) (sym same) ∙ l)))
    | inr i' ↦
        let (master, slaves, h) = elected_some later (rm', i', l) in
        (master, slaves, election_past rm later e ∙ h)
  ]
]

-- The election by Raft returns a master exactly if the node led in some round that it read.
pub election_total :
    (observed : List RaftManager)
    → (((master : Str) × (slaves : List Str) × (raft_based_master_election observed
            ≡ ok (master, slaves)))
        ↔ ((rm : RaftManager) × In rm observed × (rm.state ≡ leader)))
election_total observed = (
  λ (master, slaves, h).
      let (rm, i, l, same, slaves') = election_sound observed master slaves h in (rm, i, l),
  elected_some observed,
)
