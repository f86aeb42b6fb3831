-- ===== src/MasterSlave/Failover.antt =====
-- The roles of the pods after a failover without Raft.
use raft_based_mysql_cluster.Prelude.{
  Str, lit, true, false, List, [], ◌∷◌, map, ◌≡◌, ◌≢◌, inl, inr, refl, ap, sym, ◌∙◌, In, Distinct,
}
use raft_based_mysql_cluster.Api.{MysqlCluster}
use raft_based_mysql_cluster.Go.{ok}
use raft_based_mysql_cluster.Go.Rules.{given, bind-ok, err-never_ok}
use raft_based_mysql_cluster.Kube.{Pod}
use raft_based_mysql_cluster.Kube.Client.{Client}
use raft_based_mysql_cluster.Raft.Node.{others}
use raft_based_mysql_cluster.Raft.Node.Names.{In-others, Distinct-others}
use raft_based_mysql_cluster.Resources.{is_pod_healthy}
use raft_based_mysql_cluster.Replication.{setup_master_slave_replication}
use raft_based_mysql_cluster.Replication.Roles.{Roles, Gives-master, Gives-slave}
use raft_based_mysql_cluster.Promotion.{Floats, elect_new_master}
use raft_based_mysql_cluster.Promotion.Choice.{IsScored, elect_new_master_lem}
use raft_based_mysql_cluster.MasterSlave.{handle_master_failure}

abbrev pub names_of : List Pod → List Str
names_of pods = map (λ (p : Pod). p.meta.name) pods

pub In-names : (q : Pod) (pods : List Pod) → In q pods → In q.meta.name (names_of pods)
In-names q [] m = elim m [ ]
In-names q (p ∷ pods) (inl e) = inl (ap (λ (o : Pod). o.meta.name) e)
In-names q (p ∷ pods) (inr m) = inr (In-names q pods m)

module _ (floats : Floats) {S : Type 0} (client : Client S) (snapshot : Str)
    (score : Pod → floats.Float) where
  -- Where the list of replicas and their scores can be read, their names differ, and nobody else
  -- writes labels (Roles): if handleMasterFailure returns without an error, a healthy one of the
  -- listed replicas, whose score no healthy one exceeds, has the role of the master, and every other
  -- listed one that of a slave.
  pub failover_roles :
      (roles : Roles client) (cluster : MysqlCluster) (s s' : S) (pods : List Pod)
      → client.list_pods cluster.namespace (lit "role") (lit "slave") s ≡ (ok pods, s)
      → IsScored floats client snapshot score s pods
      → Distinct (names_of pods)
      → handle_master_failure client cluster floats snapshot s ≡ (ok tt, s')
      → (p : Pod) × In p pods
        × (is_pod_healthy p ≡ true)
        × ((q : Pod) → In q pods → is_pod_healthy q ≡ true → floats.lt (score p) (score q) ≡ false)
        × roles.HasRole cluster.namespace p.meta.name (lit "master") s'
        × ((q : Pod)
            → In q pods
            → q.meta.name ≢ p.meta.name
            → roles.HasRole cluster.namespace q.meta.name (lit "slave") s')
  unfolding handle_master_failure
  failover_roles roles cluster s s' pods listed scored distinct run =
      let (same, outcome) =
        elect_new_master_lem floats client snapshot score cluster s pods listed scored in
      elim outcome [
        | inr (low, failing) ↦
            absurd (
              err-never_ok (elect_new_master floats client snapshot cluster) _ s s' tt _ failing
                run)
        | inl (p, (m, healthy, above, top, elected)) ↦
            let rest = others p.meta.name (names_of pods) in
            let setup = setup_master_slave_replication client p.meta.name rest cluster in
            let done : setup s ≡ (ok tt, s') =
              sym (bind-ok _ _ s s (p.meta.name, rest) (λ i. (elected i, same i))) ∙ run in
            (
              p,
              m,
              healthy,
              top,
              given _ setup s s' tt
                  (Gives-master client roles cluster p.meta.name rest
                    (λ i. ((In-others p.meta.name p.meta.name _).0 i).1 refl))
                  done,
              λ q m' ne.
                  given _ setup s s' tt
                    (Gives-slave client roles cluster p.meta.name rest q.meta.name
                      (Distinct-others p.meta.name _ distinct)
                      ((In-others p.meta.name q.meta.name _).1 (In-names q pods m', ne)))
                    done,
            )
      ]
