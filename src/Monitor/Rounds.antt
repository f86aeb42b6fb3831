-- ===== src/Monitor/Rounds.antt =====
-- The rounds of the three tickers that Start of the monitor runs, in any order.
use raft_based_mysql_cluster.Prelude.{Str, List, [], ◌∷◌, ◌≡◌, ◌⊎◌, inl, inr, refl}
use raft_based_mysql_cluster.Api.{MysqlCluster, MysqlClusterStatus}
use raft_based_mysql_cluster.Go.{ok, Go, pure, ◌>>=◌, ◌>>◌, try}
use raft_based_mysql_cluster.Go.Returns.{Returns, Returns-pure, Returns-bind, Returns-try}
use raft_based_mysql_cluster.Go.Ends.{Ends, Ends-pure, Ends-bind, Ends-try}
use raft_based_mysql_cluster.Kube.Client.{Client}
use raft_based_mysql_cluster.Raft.Clock.{Time}
use raft_based_mysql_cluster.Raft.Node.{RaftManager}
use raft_based_mysql_cluster.Raft.Steps.{Reach, next, published, write_status, Reach-IsUntouched}
use raft_based_mysql_cluster.Monitor.{
  gather_metrics, perform_health_check, sync_cluster_status, Warning,
}
use raft_based_mysql_cluster.Monitor.Metrics.{
  create_or_update_config_map, update_metrics_config_map,
}
use raft_based_mysql_cluster.Kube.{ConfigMap}

-- A ticker fires: the time, and for the metrics how the time is written down.
pub data Tick : Type 0 where
  collect : Time → Str → Tick
  sync check : Time → Tick

-- The node with what a round of the monitor logs: warnings only come from the health check.
abbrev pub Logged : Type 0
Logged = RaftManager × List Warning

module _ {S : Type 0} (client : Client S) where
  unfoldable pub collect_metrics : Time → Str → RaftManager → Go S Logged
  collect_metrics now stamp rm =
      update_metrics_config_map client stamp (gather_metrics now rm) rm.cluster >> pure (rm, [])

  -- The status is written to the shared cluster also if the API server refuses it.
  unfoldable pub sync_round : Time → RaftManager → Go S Logged
  sync_round now rm =
      let cluster = sync_cluster_status now rm in
      try (client.update_cluster_status cluster) (λ _. pure (record rm { cluster = cluster }, []))
        (λ _. pure (record rm { cluster = cluster }, []))

  unfoldable pub tick : Tick → RaftManager → Go S Logged
  tick (collect now stamp) rm = collect_metrics now stamp rm
  tick (sync now) rm = sync_round now rm
  tick (check now) rm = pure (rm, perform_health_check now rm)

  unfoldable pub ticks : List Tick → RaftManager → Go S RaftManager
  ticks [] rm = pure rm
  ticks (t ∷ ts) rm = do logged ← tick t rm; ticks ts logged.0

-- The node that the tickers leave.
abbrev watched : List Tick → RaftManager → RaftManager
watched [] rm = rm
watched (collect now stamp ∷ ts) rm = watched ts rm
watched (check now ∷ ts) rm = watched ts rm
watched (sync now ∷ ts) rm = watched ts (write_status (sync_cluster_status now rm).status rm)

-- The calls of the monitor end, whether the API server refuses them or not.
pub record Answering {S : Type 0} (client : Client S) : Type 0 where
  pub read : (n x : Str) → Ends (client.get_config_map n x)
  pub made : (o : ConfigMap) → Ends (client.create_config_map o)
  pub written : (o : ConfigMap) → Ends (client.update_config_map o)
  pub published : (o : MysqlCluster) → Ends (client.update_cluster_status o)

module _ {S : Type 0} (client : Client S) (answers : Answering client) where
  collect-Returns :
      (now : Time) (stamp : Str) (rm : RaftManager)
      → Returns (λ _. Unit) (λ (l : Logged) _. l.0 ≡ rm) (collect_metrics client now stamp rm)
  unfolding collect_metrics update_metrics_config_map create_or_update_config_map
  collect-Returns now stamp rm =
      Returns-bind (λ _ _. Unit) _ _ _
        (Returns-try _ _ _ _ _ _
          (Ends-try _ _ _ (answers.made _) (λ _. Ends-pure tt)
            (λ _. Ends-bind _ _ (answers.read _ _) (λ _. answers.written _)))
          (λ _. Returns-pure _ tt (λ s p. tt)) (λ _. Returns-pure _ tt (λ s p. tt)))
        (λ _. Returns-pure _ (rm, []) (λ s p. refl))

  sync_round-Returns :
      (now : Time) (rm : RaftManager)
      → Returns
          (λ _. Unit)
          (λ (l : Logged) _. l.0 ≡ write_status (sync_cluster_status now rm).status rm)
          (sync_round client now rm)
  unfolding sync_round sync_cluster_status
  sync_round-Returns now rm =
      Returns-try _ _ _ _ _ _ (answers.published _) (λ _. Returns-pure _ _ (λ s p. refl))
        (λ _. Returns-pure _ _ (λ s p. refl))

  goes_on :
      (ts : List Tick) (m : Go S Logged) (rm rm' : RaftManager)
      → Returns (λ _. Unit) (λ (l : Logged) _. l.0 ≡ rm) m
      → Returns (λ _. Unit) (λ r _. r ≡ rm') (ticks client ts rm)
      → Returns (λ _. Unit) (λ r _. r ≡ rm') (m >>= λ l. ticks client ts l.0)
  goes_on ts m rm rm' hm h =
      Returns-bind (λ l _. l.0 ≡ rm) _ _ _ hm (λ l. record { at = λ s e. rw e (h.at s tt) })

  ticks-Returns :
      (ts : List Tick) (rm : RaftManager)
      → Returns (λ _. Unit) (λ r _. r ≡ watched ts rm) (ticks client ts rm)
  unfolding ticks tick
  ticks-Returns [] rm = Returns-pure _ rm (λ s p. refl)
  ticks-Returns (collect now stamp ∷ ts) rm =
      goes_on ts _ rm _ (collect-Returns now stamp rm) (ticks-Returns ts rm)
  ticks-Returns (check now ∷ ts) rm =
      goes_on ts _ rm _ (Returns-pure _ _ (λ s p. refl)) (ticks-Returns ts rm)
  ticks-Returns (sync now ∷ ts) rm =
      goes_on ts _ _ _ (sync_round-Returns now rm) (ticks-Returns ts _)

-- Whether the status is written.
abbrev pub HasSync : List Tick → Type 0
HasSync [] = ⊥
HasSync (sync now ∷ ts) = Unit
HasSync (collect now stamp ∷ ts) = HasSync ts
HasSync (check now ∷ ts) = HasSync ts

watched-status :
    (ts : List Tick) (rm : RaftManager)
    → (status : MysqlClusterStatus) × (watched ts rm ≡ write_status status rm)
watched-status [] rm = (rm.cluster.status, refl)
watched-status (collect now stamp ∷ ts) rm = watched-status ts rm
watched-status (check now ∷ ts) rm = watched-status ts rm
watched-status (sync now ∷ ts) rm =
    let (status, e) = watched-status ts (write_status (sync_cluster_status now rm).status rm) in
    (status, e)

module _ {me : Str} {wanted : MysqlCluster} where
  watched-Reach :
      (ts : List Tick) (rm : RaftManager) → Reach me wanted rm → Reach me wanted (watched ts rm)
  watched-Reach [] rm reach = reach
  watched-Reach (collect now stamp ∷ ts) rm reach = watched-Reach ts rm reach
  watched-Reach (check now ∷ ts) rm reach = watched-Reach ts rm reach
  watched-Reach (sync now ∷ ts) rm reach = watched-Reach ts _ (next reach (published _))

  watched-leader :
      (ts : List Tick) (rm : RaftManager)
      → Reach me wanted rm
      → (HasSync ts ⊎ (rm.cluster.status.raft_leader ≡ []))
      → (watched ts rm).cluster.status.raft_leader ≡ []
  unfolding sync_cluster_status
  watched-leader [] rm reach (inl m) = elim m [ ]
  watched-leader [] rm reach (inr e) = e
  watched-leader (collect now stamp ∷ ts) rm reach h = watched-leader ts rm reach h
  watched-leader (check now ∷ ts) rm reach h = watched-leader ts rm reach h
  watched-leader (sync now ∷ ts) rm reach h =
      watched-leader ts _ (next reach (published _)) (inr ((Reach-IsUntouched reach).no_leader_id))

  -- Where its calls end, even in errors (Answering), the rounds of the monitor's tickers end in
  -- whatever order they fire, and change nothing of a node that came about somehow but the status
  -- of the cluster. The node is again one that comes about, so what holds of its elections, votes
  -- and log holds with a monitor beside it. If one of the rounds writes the status, the status names
  -- no leader at the end, also if the node leads.
  pub ticks_watch :
      {S : Type 0} (client : Client S) (answers : Answering client) (ts : List Tick)
      (rm : RaftManager) (s : S)
      → Reach me wanted rm
      → (rm' : RaftManager) × (s' : S) × (ticks client ts rm s ≡ (ok rm', s'))
        × Reach me wanted rm'
        × ((status : MysqlClusterStatus) × (rm' ≡ write_status status rm))
        × (HasSync ts → rm'.cluster.status.raft_leader ≡ [])
  ticks_watch client answers ts rm s reach =
      let (rm', s', run, e) = (ticks-Returns client answers ts rm).at s tt in
      (
        rm',
        s',
        run,
        rw e (watched-Reach ts rm reach),
        rw e (watched-status ts rm),
        λ m. rw e (watched-leader ts rm reach (inl m)),
      )
