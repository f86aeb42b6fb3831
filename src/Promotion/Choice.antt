-- ===== src/Promotion/Choice.antt =====
-- Which replica is promoted.
use raft_based_mysql_cluster.Prelude.{
  negsuc, Str, lit, true, false, List, [], ◌∷◌, none, some, ◌≡◌, ◌⊎◌, inl, inr, refl, ◌∙◌, subst,
  arith, In, Bool-cases, if◌then◌else◌,
}
use raft_based_mysql_cluster.Api.{MysqlCluster}
use raft_based_mysql_cluster.Go.{Error, Result, ok, err, Go, errorf, pure, lift, map_err}
use raft_based_mysql_cluster.Go.Rules.{bind-ok}
use raft_based_mysql_cluster.Kube.{Pod}
use raft_based_mysql_cluster.Kube.Client.{Client}
use raft_based_mysql_cluster.Raft.Node.{others}
use raft_based_mysql_cluster.Resources.{is_pod_healthy}
use raft_based_mysql_cluster.Promotion.{
  Floats, Best, improve, get_data_score, elect_loop, pod_names, promote, elect_new_master,
}

pub map_err-ok :
    {S A : Type 0} (f : Error → Error) (m : Go S A) (s s' : S) (a : A)
    → m s ≡ (ok a, s')
    → map_err f m s ≡ (ok a, s')
unfolding map_err
map_err-ok f m s s' a e = rw e

module _ (floats : Floats) {S : Type 0} (client : Client S) (snapshot : Str)
    (score : Pod → floats.Float) where
  open floats use {Float, of_int, lt, irreflexive, transitive}

  abbrev BestType : Type 0
  BestType = Best floats client snapshot

  abbrev keep_better : Pod → BestType → BestType
  keep_better pod best = improve floats client snapshot pod (score pod) best

  -- The loop on known scores.
  choose : List Pod → BestType → BestType
  choose [] best = best
  choose (pod ∷ pods) best = choose pods (if is_pod_healthy pod then keep_better pod best else best)

  -- At the state `s` the score of each of the pods can be read, and reading changes nothing.
  abbrev pub IsScored : S → List Pod → Type 0
  IsScored s pods =
      (pod : Pod) → In pod pods → get_data_score floats client snapshot pod s ≡ (ok (score pod), s)

  elect_loop-choose :
      (s : S) (pods : List Pod) (best : BestType)
      → IsScored s pods
      → elect_loop floats client snapshot pods best s ≡ (ok (choose pods best), s)
  unfolding elect_loop choose
  elect_loop-choose s [] best h = unfold pure in refl
  elect_loop-choose s (pod ∷ pods) best h = elim (Bool-cases (is_pod_healthy pod)) [
    | inl healthy ↦ rw healthy (
        bind-ok _ _ s s (score pod) (map_err-ok _ _ s s (score pod) (h pod (inl refl)))
        ∙ elect_loop-choose s pods _ (λ q m. h q (inr m)))
    | inr ill ↦ rw ill (elect_loop-choose s pods best (λ q m. h q (inr m)))
  ]

  choose-healthy :
      (pod : Pod) (pods : List Pod) (best : BestType)
      → is_pod_healthy pod ≡ true
      → choose (pod ∷ pods) best ≡ choose pods (keep_better pod best)
  unfolding choose
  choose-healthy pod pods best h = rw (h, choose)

  choose-ill :
      (pod : Pod) (pods : List Pod) (best : BestType)
      → is_pod_healthy pod ≡ false
      → choose (pod ∷ pods) best ≡ choose pods best
  unfolding choose
  choose-ill pod pods best h = rw (h, choose)

  -- The score of the best so far does not fall.
  improve_mono :
      (pod : Pod) (best : BestType) (x : Float)
      → lt best.1 x ≡ false
      → lt (keep_better pod best).1 x ≡ false
  improve_mono pod best x h = ground (arith, transitive best.1 (score pod) x)

  improve-top : (pod : Pod) (best : BestType) → lt (keep_better pod best).1 (score pod) ≡ false
  improve-top pod best = ground (arith, irreflexive (score pod))

  choose_mono :
      (pods : List Pod) (best : BestType) (x : Float)
      → lt best.1 x ≡ false
      → lt (choose pods best).1 x ≡ false
  choose_mono [] best x h = unfold choose in h
  choose_mono (pod ∷ pods) best x h = elim (Bool-cases (is_pod_healthy pod)) [
    | inl healthy ↦
        rw (choose-healthy pod pods best healthy) (choose_mono pods _ x (improve_mono pod best x h))
    | inr ill ↦ rw (choose-ill pod pods best ill) (choose_mono pods best x h)
  ]

  -- No healthy pod scores more than the choice.
  choose-top :
      (pods : List Pod) (best : BestType) (q : Pod)
      → In q pods
      → is_pod_healthy q ≡ true
      → lt (choose pods best).1 (score q) ≡ false
  choose-top [] best q m h = elim m [ ]
  choose-top (pod ∷ pods) best q (inl e) h = rw e (
      rw (choose-healthy pod pods best (rw (← e) h))
        (choose_mono pods _ (score pod) (improve-top pod best)))
  choose-top (pod ∷ pods) best q (inr m) h = elim (Bool-cases (is_pod_healthy pod)) [
    | inl healthy ↦ rw (choose-healthy pod pods best healthy) (choose-top pods _ q m h)
    | inr ill ↦ rw (choose-ill pod pods best ill) (choose-top pods best q m h)
  ]

  -- The choice is the one before the loop, or a healthy pod that scores more.
  abbrev Origin : List Pod → BestType → BestType → Type 0
  Origin pods best r =
      (r ≡ best)
      ⊎ ((p : Pod) × In p pods
          × (is_pod_healthy p ≡ true)
          × (r ≡ (some p, score p))
          × (lt best.1 (score p) ≡ true))

  Origin-skip :
      (pod : Pod) (pods : List Pod) (best r : BestType)
      → Origin pods best r
      → Origin (pod ∷ pods) best r
  Origin-skip pod pods best r (inl e) = inl e
  Origin-skip pod pods best r (inr (p, m, h, e, more)) = inr (p, inr m, h, e, more)

  takes_pod :
      (pod : Pod) (best : BestType)
      → lt best.1 (score pod) ≡ true
      → keep_better pod best ≡ (some pod, score pod)
  takes_pod pod best more = ground arith

  keeps_best :
      (pod : Pod) (best : BestType) → lt best.1 (score pod) ≡ false → keep_better pod best ≡ best
  keeps_best pod best low = ground arith

  Origin-better :
      (pod : Pod) (pods : List Pod) (best r : BestType)
      → is_pod_healthy pod ≡ true
      → Origin pods (keep_better pod best) r
      → Origin (pod ∷ pods) best r
  Origin-better pod pods best r healthy o = elim (Bool-cases (lt best.1 (score pod))) [
    | inr low ↦
        Origin-skip pod pods best r (subst (λ b. Origin pods b r) (keeps_best pod best low) o)
    | inl more ↦ elim (subst (λ b. Origin pods b r) (takes_pod pod best more) o) [
      | inl e ↦ inr (pod, inl refl, healthy, e, more)
      | inr (p, m, h, e, higher) ↦
          inr (p, inr m, h, e, transitive best.1 (score pod) (score p) more higher)
    ]
  ]

  choose-Origin : (pods : List Pod) (best : BestType) → Origin pods best (choose pods best)
  choose-Origin [] best = unfold choose in inl refl
  choose-Origin (pod ∷ pods) best = elim (Bool-cases (is_pod_healthy pod)) [
    | inl healthy ↦
        rw (choose-healthy pod pods best healthy)
          (Origin-better pod pods best _ healthy (choose-Origin pods _))
    | inr ill ↦
        rw (choose-ill pod pods best ill) (Origin-skip pod pods best _ (choose-Origin pods best))
  ]

  -- The election's result where a pod was chosen, and where none was.
  abbrev pub IsElected : Pod → List Pod → Result (Str × List Str) → Type 0
  IsElected p pods r =
      In p pods
      × (is_pod_healthy p ≡ true)
      × (lt (of_int (negsuc 0)) (score p) ≡ true)
      × ((q : Pod) → In q pods → is_pod_healthy q ≡ true → lt (score p) (score q) ≡ false)
      × (r ≡ ok (p.meta.name, others p.meta.name (pod_names floats client snapshot pods)))

  promote-chosen :
      (pods : List Pod)
      → ((p : Pod) × IsElected p pods
            (promote floats client snapshot pods (choose pods (none, of_int (negsuc 0))).0))
        ⊎ (((q : Pod)
              → In q pods
              → is_pod_healthy q ≡ true
              → lt (of_int (negsuc 0)) (score q) ≡ false)
            × (promote floats client snapshot pods (choose pods (none, of_int (negsuc 0))).0
                ≡ err (errorf (lit "no suitable slave found to be promoted to master"))))
  unfolding promote
  promote-chosen pods = elim (choose-Origin pods (none, of_int (negsuc 0))) [
    | inl e ↦ inr (λ q m h. rw e at (choose-top pods (none, of_int (negsuc 0)) q m h), rw e refl)
    | inr (p, m, healthy, e, more) ↦ inl (
      p,
      (
        m,
        healthy,
        more,
        λ q m' h. rw e at (choose-top pods (none, of_int (negsuc 0)) q m' h),
        rw e refl,
      ),
    )
  ]

  elected :
      (cluster : MysqlCluster) (s : S) (pods : List Pod)
      → client.list_pods cluster.namespace (lit "role") (lit "slave") s ≡ (ok pods, s)
      → IsScored s pods
      → elect_new_master floats client snapshot cluster s
        ≡ (promote floats client snapshot pods (choose pods (none, of_int (negsuc 0))).0, s)
  unfolding elect_new_master lift
  elected cluster s pods listed scored =
      bind-ok _ _ s s pods (map_err-ok _ _ s s pods listed)
      ∙ bind-ok _ _ s s _ (elect_loop-choose s pods _ scored)

  -- Where the list of replicas and their scores can be read, the election promotes a healthy replica
  -- whose score is above -1 and that no healthy replica exceeds, with all listed pods of other names
  -- as the remaining slaves; or no healthy replica scores above -1, and it returns an error. Either
  -- way nothing is changed.
  pub elect_new_master_lem :
      (cluster : MysqlCluster) (s : S) (pods : List Pod)
      → client.list_pods cluster.namespace (lit "role") (lit "slave") s ≡ (ok pods, s)
      → IsScored s pods
      → ((elect_new_master floats client snapshot cluster s).1 ≡ s)
        × (((p : Pod) × IsElected p pods (elect_new_master floats client snapshot cluster s).0)
            ⊎ (((q : Pod)
                  → In q pods
                  → is_pod_healthy q ≡ true
                  → lt (of_int (negsuc 0)) (score q) ≡ false)
                × ((elect_new_master floats client snapshot cluster s).0
                    ≡ err (errorf (lit "no suitable slave found to be promoted to master")))))
  elect_new_master_lem cluster s pods listed scored =
      let run = elected cluster s pods listed scored in rw run (refl, promote-chosen pods)
