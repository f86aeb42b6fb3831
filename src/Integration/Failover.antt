-- ===== src/Integration/Failover.antt =====
-- The failover by Raft looks for the pod of the new master under the name of its node.
use raft_based_mysql_cluster.Prelude.{Str, List, ◌≡◌, refl, ◌∙◌, In}
use raft_based_mysql_cluster.Api.{MysqlCluster}
use raft_based_mysql_cluster.Go.{Result, ok, err, waiting, panic, lift}
use raft_based_mysql_cluster.Go.Keeps.{Holds, Ensures, Ensures-bind, Ensures-map_err}
use raft_based_mysql_cluster.Go.Rules.{Gives, Gives-map_err, Gives-never}
use raft_based_mysql_cluster.Kube.Client.{Client}
use raft_based_mysql_cluster.Kube.Client.Laws.{Anything}
use raft_based_mysql_cluster.Raft.Node.{RaftManager}
use raft_based_mysql_cluster.Integration.{
  raft_based_master_election, get_pod_by_name, ensure_mysql_master_role, setup_mysql_replication,
  handle_raft_based_failover,
}
use raft_based_mysql_cluster.Integration.Election.{election_sound}

-- In all rounds the node has the name `me`.
abbrev pub AllNamed : Str → List RaftManager → Type 0
AllNamed me rounds = (rm : RaftManager) → In rm rounds → rm.node_id ≡ me

module _ {S : Type 0} (client : Client S) (cluster : MysqlCluster) (me : Str)
    (absent : Gives (λ s. ⊥) (client.get_pod cluster.namespace me)) where
  setup_fails :
      (slaves : List Str) → Gives (λ s. ⊥) (setup_mysql_replication client cluster me slaves)
  unfolding setup_mysql_replication ensure_mysql_master_role get_pod_by_name
  setup_fails slaves = Gives-never _ _ (Gives-map_err _ _ (Gives-never _ _ absent))

  elects_me :
      (rounds : List RaftManager)
      → AllNamed me rounds
      → Ensures Anything
          (λ (a : Str × List Str) (s : S). a.0 ≡ me)
          (lift (raft_based_master_election rounds))
  unfolding lift
  elects_me rounds named = record { at = λ s p. go s (raft_based_master_election rounds) refl }
    where
      go :
          (s : S) (r : Result (Str × List Str))
          → raft_based_master_election rounds ≡ r
          → Holds Anything (λ (a : Str × List Str) (s : S). a.0 ≡ me) r s
      go s (ok (master, slaves)) e =
          let (rm, i, l, same, others) = election_sound rounds master slaves e in
          (tt, same ∙ named rm i)
      go s (err x) e = tt
      go s waiting e = tt
      go s panic e = tt

  -- If no pod can be read under the name of the node, a failover by Raft never returns without an
  -- error.
  pub failover_fails :
      (rounds : List RaftManager)
      → AllNamed me rounds
      → Gives (λ s. ⊥) (handle_raft_based_failover client cluster rounds)
  unfolding handle_raft_based_failover
  failover_fails rounds named =
      Ensures-bind (λ (a : Str × List Str) s. a.0 ≡ me) _ _ _
        (Ensures-map_err _ _ _ (elects_me rounds named))
        (λ a s p e. rw e ((Gives-never _ _ (Gives-map_err _ _ (setup_fails a.1))).at s tt))
