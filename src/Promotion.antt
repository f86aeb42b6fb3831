-- ===== src/Promotion.antt =====
-- internal/controller/elect_new_master.go: the score of a replica by its GTID set and the size of
-- its data, and the choice of the new master.
pub mod Gtid
pub mod Choice
use raft_based_mysql_cluster.Prelude.{
  ℕ, zero, suc, ◌+◌, ◌-◌, ◌*◌, ◌^◌, ◌≤◌, ℤ, pos, negsuc, Str, lit, str_eq, contains, Bool, true,
  false, not, ◌&&◌, ◌||◌, List, [], ◌∷◌, ◌++◌, map, Option, none, some, length, leb, ltb, ◌==◌, ◌≡◌,
  if◌then◌else◌,
}
use raft_based_mysql_cluster.Prelude.Decimal.{is_digit, value}
use raft_based_mysql_cluster.Api.{MysqlCluster}
use raft_based_mysql_cluster.Go.{
  Error, Result, ok, err, Go, errorf, wrap, pure, raise, lift, map_err, ◌>>=◌, ◌>>◌, try,
}
use raft_based_mysql_cluster.Kube.{ObjectMeta, Pod}
use raft_based_mysql_cluster.Kube.Client.{Client}
use raft_based_mysql_cluster.Raft.Node.{others}
use raft_based_mysql_cluster.Replication.{failed}
use raft_based_mysql_cluster.Resources.{is_pod_healthy, mysql_password}

-- float64 and its comparison, of which only these two laws are used; they hold of every value.
pub record Floats : Type 1 where
  pub Float : Type 0
  pub of_int : ℤ → Float
  pub add : Float → Float → Float
  pub div : Float → Float → Float
  pub lt : Float → Float → Bool
  pub irreflexive : (x : Float) → lt x x ≡ false
  pub transitive : (x y z : Float) → lt x y ≡ true → lt y z ≡ true → lt x z ≡ true

abbrev cons_head : ℕ → List Str → List Str
cons_head c [] = (c ∷ []) ∷ []
cons_head c (part ∷ parts) = (c ∷ part) ∷ parts

-- strings.Split(s, ",")
unfoldable pub split_commas : Str → List Str
split_commas [] = [] ∷ []
split_commas (c ∷ s) =
    let rest = split_commas s in if c == b',' then [] ∷ rest else cons_head c rest

-- The loop of calculateGTIDScore: how many of the master's GTIDs the replica has.
unfoldable pub count_common : List Str → List Str → ℕ
count_common [] slave_gtids = 0
count_common (gtid ∷ gtids) slave_gtids =
    if contains slave_gtids gtid
    then suc (count_common gtids slave_gtids)
    else count_common gtids slave_gtids

-- The white space that strings.TrimSpace drops from ASCII text.
abbrev is_space : ℕ → Bool
is_space c = c == 32 || (leb 9 c && leb c 13)

unfoldable pub trim_left : Str → Str
trim_left [] = []
trim_left (c ∷ s) = let rest = trim_left s in if is_space c then rest else c ∷ s

unfoldable pub trim_right : Str → Str
trim_right [] = []
trim_right (c ∷ s) = elim (trim_right s) [
  | [] ↦ if is_space c then [] else c ∷ []
  | d ∷ t ↦ c ∷ (d ∷ t)
]

abbrev all_digits : Str → Bool
all_digits [] = true
all_digits (c ∷ s) = is_digit c && all_digits s

-- The digits behind a sign, as a number: at least one of them.
abbrev magnitude : Str → Option ℕ
magnitude [] = none
magnitude (c ∷ s) = if all_digits (c ∷ s) then some (value 0 (c ∷ s)) else none

abbrev bad_number : Error
bad_number = errorf (lit "strconv.ParseInt: parsing failed")

abbrev positive : Option ℕ → Result ℤ
positive none = err bad_number
positive (some n) = if ltb n (2 ^ 63) then ok (pos n) else err bad_number

abbrev negative : Option ℕ → Result ℤ
negative none = err bad_number
negative (some zero) = ok (pos 0)
negative (some (suc n)) = if ltb n (2 ^ 63) then ok (negsuc n) else err bad_number

-- strconv.ParseInt(s, 10, 64)
unfoldable pub parse_int : Str → Result ℤ
parse_int [] = err bad_number
parse_int (c ∷ s) =
    if c == b'-'
    then negative (magnitude s)
    else if c == b'+'
    then positive (magnitude s)
    else positive (magnitude (c ∷ s))

unfoldable pub slave_gtid_command : Str
slave_gtid_command =
    lit "mysql -uroot -p"
    ++ (mysql_password
        ++ lit " -e \"SHOW SLAVE STATUS\\G\" | grep 'Retrieved_Gtid_Set:' | awk '{print $2}'")

unfoldable pub master_gtid_command : Str
master_gtid_command =
    lit "mysql -uroot -p"
    ++ (mysql_password
        ++ lit " -e \"SHOW MASTER STATUS\\G\" | grep 'Executed_Gtid_Set:' | awk '{print $2}'")

module _ (floats : Floats) where
  open floats use {Float, of_int, add, div, lt}

  unfoldable pub calculate_gtid_score : Str → Str → Float
  calculate_gtid_score master_gtid_set slave_gtid_set =
      if str_eq master_gtid_set [] || str_eq slave_gtid_set []
      then of_int (pos 0)
      else (let master_gtids = split_commas master_gtid_set in
          div (of_int (pos (count_common master_gtids (split_commas slave_gtid_set))))
            (of_int (pos (length master_gtids))))

  module _ {S : Type 0} (client : Client S) (master_gtid_snapshot : Str) where
    unfoldable pub get_data_size : Pod → Go S ℤ
    get_data_size pod = do
      output ← client.run_command pod (lit "du -sb /var/lib/mysql | awk '{print $1}'")
      lift (parse_int (trim_right (trim_left output)))

    -- getDataScore, with getSlaveGTIDSet and calculateDataScore.
    unfoldable pub get_data_score : Pod → Go S Float
    get_data_score pod = do
      slave_gtid_set ←
          map_err (wrap (lit "failed to get slave GTID set: "))
            (client.run_command pod slave_gtid_command)
      data_size ← map_err (wrap (lit "failed to get data size: ")) (get_data_size pod)
      pure (add (calculate_gtid_score master_gtid_snapshot slave_gtid_set) (of_int data_size))

    -- The best replica so far, and its score.
    abbrev pub Best : Type 0
    Best = Option Pod × Float

    abbrev pub improve : Pod → Float → Best → Best
    improve pod score best = if lt best.1 score then (some pod, score) else best

    -- The loop over the replicas.
    unfoldable pub elect_loop : List Pod → Best → Go S Best
    elect_loop [] best = pure best
    elect_loop (pod ∷ pods) best =
        let skip = elect_loop pods best in
        let score_it =
          map_err (failed (lit "failed to get data score for pod") pod.meta.name)
            (get_data_score pod)
          >>= λ score. elect_loop pods (improve pod score best) in
        if not (is_pod_healthy pod) then skip else score_it

    abbrev pub pod_names : List Pod → List Str
    pod_names pods = map (λ (pod : Pod). pod.meta.name) pods

    -- What electNewMaster returns for the best of the listed replicas.
    unfoldable pub promote : List Pod → Option Pod → Result (Str × List Str)
    promote pods none = err (errorf (lit "no suitable slave found to be promoted to master"))
    promote pods (some best) = ok (best.meta.name, others best.meta.name (pod_names pods))

    unfoldable pub elect_new_master : MysqlCluster → Go S (Str × List Str)
    elect_new_master cluster = do
      pods ←
          map_err (wrap (lit "failed to list slave pods: "))
            (client.list_pods cluster.namespace (lit "role") (lit "slave"))
      best ← elect_loop pods (none, of_int (negsuc 0))
      lift (promote pods best.0)

  -- A round of startAndUpdateGTIDSnapshot: the snapshot after it.
  unfoldable pub snapshot_round : {S : Type 0} → Client S → MysqlCluster → Str → Go S Str
  snapshot_round client cluster snapshot =
      try (client.list_pods cluster.namespace (lit "role") (lit "master"))
        (λ pods. elim pods [
          | [] ↦ pure []
          | pod ∷ _ ↦ try (client.run_command pod master_gtid_command) pure (λ _. pure snapshot)
        ])
        (λ _. pure snapshot)
