-- ===== src/Integration/SemiSync.antt =====
-- The check of the semi-synchronous replication, with a command runner that runs nothing.
use raft_based_mysql_cluster.Prelude.{Str, contains_text, List, ◌≡◌}
use raft_based_mysql_cluster.Api.{MysqlCluster}
use raft_based_mysql_cluster.Go.{ok, raise, map_err, ◌>>=◌}
use raft_based_mysql_cluster.Go.Rules.{Gives, Gives-then, not-ok}
use raft_based_mysql_cluster.Kube.Client.{Client}
use raft_based_mysql_cluster.Integration.{
  exec_command_on_pod, verify_semi_sync_status, configure_semi_sync_replication,
}

module _ {S : Type 0} (client : Client S) (cluster : MysqlCluster) where
  verify_fails :
      (master : Str) (slaves : List Str)
      → Gives (λ s. ⊥) (verify_semi_sync_status client cluster master slaves)
  unfolding verify_semi_sync_status exec_command_on_pod
  verify_fails master slaves =
      Gives-then _ _ (λ pod. record { at = λ s p. unfold map_err ◌>>=◌ contains_text raise in p })

  -- Whatever the pods and the API server answer, the configuration of the semi-synchronous
  -- replication never returns without an error.
  pub semi_sync_never_ok :
      (master : Str) (slaves : List Str) (s : S)
      → ¬ ((configure_semi_sync_replication client cluster master slaves s).0 ≡ ok tt)
  unfolding configure_semi_sync_replication
  semi_sync_never_ok master slaves s =
      not-ok _ (Gives-then _ _ (λ _. Gives-then _ _ (λ _. verify_fails master slaves))) s tt
