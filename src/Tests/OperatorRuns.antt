-- ===== src/Tests/OperatorRuns.antt =====
-- Instances of the theorems on the operator's functions.
use raft_based_mysql_cluster.Prelude.{
  ℕ, ◌≤◌, pos, negsuc, lit, true, false, List, [], ◌∷◌, ◌≡◌, ◌⊎◌, ◌↔◌, refl, str_eq, In,
}
use raft_based_mysql_cluster.Prelude.Decimal.{value, show_02}
use raft_based_mysql_cluster.Api.{leader}
use raft_based_mysql_cluster.Go.{ok, err, errorf, pure, map_err, lift, ◌>>=◌}
use raft_based_mysql_cluster.Kube.{Pod}
use raft_based_mysql_cluster.Resources.{is_pod_healthy}
use raft_based_mysql_cluster.Replicas.{
  extract_pod_numbers, generate_expected_pod_numbers, find_missing_pod_numbers,
}
use raft_based_mysql_cluster.Replicas.Numbers.{pod_names, numbers, extract_pod_numbers-pod_names}
use raft_based_mysql_cluster.Replicas.Missing.{missing_iff}
use raft_based_mysql_cluster.Promotion.{
  get_data_score, get_data_size, parse_int, trim_right, trim_left, calculate_gtid_score,
  elect_new_master,
}
use raft_based_mysql_cluster.Promotion.Choice.{IsElected, IsScored, elect_new_master_lem}
use raft_based_mysql_cluster.Integration.{
  raft_based_master_election, configure_semi_sync_replication,
}
use raft_based_mysql_cluster.Integration.SemiSync.{semi_sync_never_ok}
use raft_based_mysql_cluster.Integration.Election.{IsVerdict, election_sound}
use raft_based_mysql_cluster.Raft.Node.{RaftManager, get_cluster_nodes, others}
use raft_based_mysql_cluster.Tests.Data.{three, node0}
use raft_based_mysql_cluster.Tests.Store.{Objects, store, whole, in_order, pod_of}

extract_example : extract_pod_numbers (pod_names (1 ∷ 12 ∷ [])) ≡ numbers (1 ∷ 12 ∷ [])
extract_example = extract_pod_numbers-pod_names (1 ∷ 12 ∷ [])

missing_example :
    In (show_02 2) (
      find_missing_pod_numbers
        (λ l. l)
        (generate_expected_pod_numbers (pos 3))
        (extract_pod_numbers (pod_names (1 ∷ 3 ∷ []))))
    ↔ ((1 ≤ 2) × (2 ≤ 3) × (¬ In {A = ℕ} 2 (1 ∷ 3 ∷ [])))
missing_example = missing_iff (λ l. l) (pos 3) (1 ∷ 3 ∷ []) 2 in_order

abbrev pub two_pods : List Pod
two_pods = pod_of (lit "default") (lit "mysql-02") ∷ pod_of (lit "default") (lit "mysql-03") ∷ []

-- Each pod's data takes 40 bytes, and no GTID set has been recorded.
two-IsScored : IsScored whole (store two_pods (lit "40")) [] (λ pod. pos 40) [] two_pods
unfolding get_data_score ◌>>=◌ map_err pure get_data_size lift parse_int trim_right trim_left value
    calculate_gtid_score str_eq
two-IsScored pod m = refl

elect_new_master_example :
    ((elect_new_master whole (store two_pods (lit "40")) [] three []).1 ≡ [])
    × (((p : Pod) × IsElected whole
            (store two_pods (lit "40"))
            []
            (λ pod. pos 40)
            p
            two_pods
            (elect_new_master whole (store two_pods (lit "40")) [] three []).0)
        ⊎ (((q : Pod)
              → In q two_pods
              → is_pod_healthy q ≡ true
              → whole.lt (whole.of_int (negsuc 0)) (pos 40) ≡ false)
            × ((elect_new_master whole (store two_pods (lit "40")) [] three []).0
                ≡ err (errorf (lit "no suitable slave found to be promoted to master")))))
unfolding pure
elect_new_master_example =
    elect_new_master_lem whole (store two_pods (lit "40")) [] (λ pod. pos 40) three [] two_pods refl
      two-IsScored

abbrev leading : RaftManager
leading = record node0 { state = leader }

elects_leading :
    raft_based_master_election (node0 ∷ leading ∷ [])
    ≡ ok (lit "db-0", others (lit "db-0") (get_cluster_nodes leading))
unfolding raft_based_master_election
elects_leading = refl

election_sound_example :
    IsVerdict (node0 ∷ leading ∷ []) (lit "db-0") (others (lit "db-0") (get_cluster_nodes leading))
election_sound_example =
    election_sound (node0 ∷ leading ∷ []) (lit "db-0")
      (others (lit "db-0") (get_cluster_nodes leading)) elects_leading

semi_sync_example : ¬ (
    (configure_semi_sync_replication
      (store [] (lit "ON"))
      three
      (lit "mysql-01")
      (lit "mysql-02" ∷ [])
      []).0
    ≡ ok tt)
semi_sync_example =
    semi_sync_never_ok (store [] (lit "ON")) three (lit "mysql-01") (lit "mysql-02" ∷ []) []

-- Of the two pods that are there, each says that its SQL thread runs and its IO thread does not.
abbrev objects : Objects
objects =
    (lit "pod", lit "default", lit "mysql-02") ∷ (lit "pod", lit "default", lit "mysql-03") ∷ []
