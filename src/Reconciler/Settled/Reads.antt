-- ===== src/Reconciler/Settled/Reads.antt =====
-- What the parts of Reconcile read of a settled cluster, none of which finds anything to do.
use raft_based_mysql_cluster.Prelude.{
  ℕ, pos, eqb_ℤ_iff, Str, lit, str_eq, str_eq_iff, true, List, [], ◌∷◌, map, length, ◌≡◌, inl, inr,
  refl, ◌∙◌, In, Bool-cases, int32,
}
use raft_based_mysql_cluster.Api.{MysqlCluster}
use raft_based_mysql_cluster.Go.{ok, pure, try, for_each}
use raft_based_mysql_cluster.Go.Rules.{bind-ok}
use raft_based_mysql_cluster.Kube.{Pod}
use raft_based_mysql_cluster.Kube.Client.{Client}
use raft_based_mysql_cluster.Raft.Node.{others}
use raft_based_mysql_cluster.Raft.Node.Names.{In-others}
use raft_based_mysql_cluster.Replication.{
  first_address, get_master_pod_name_from_endpoints, get_actual_replica_info,
  get_replica_pods_names,
}
use raft_based_mysql_cluster.MasterSlave.{
  has_address, slave_status_command, is_replicating, role_of, check_master_status, slave_status,
  failed_replicas, check_replica_status, ensure_slave_role, ensure_slave_roles,
}
use raft_based_mysql_cluster.Promotion.Choice.{map_err-ok}
use raft_based_mysql_cluster.Controller.{reconcile_replicas}
use raft_based_mysql_cluster.Reconciler.{Observed, repair_replicas}
use raft_based_mysql_cluster.Reconciler.Settled.{IsSettled}

name-pod :
    (pods : List Pod) (x : Str)
    → In x (map (λ (p : Pod). p.meta.name) pods)
    → (q : Pod) × In q pods × (x ≡ q.meta.name)
name-pod [] x m = elim m [ ]
name-pod (p ∷ pods) x (inl e) = (p, inl refl, e)
name-pod (p ∷ pods) x (inr m) = let (q, i, e) = name-pod pods x m in (q, inr i, e)

module _ {S : Type 0} (client : Client S) (cluster : MysqlCluster) (s : S)
    (settled : IsSettled client cluster s) where
  open settled use {endpoints, master, pods}

  pub alive : check_master_status client cluster s ≡ (ok true, s)
  unfolding check_master_status has_address
  alive = bind-ok _ _ s s endpoints settled.answered ∙ rw settled.addressed (unfold pure in refl)

  master_found : get_master_pod_name_from_endpoints client cluster s ≡ (ok master, s)
  unfolding get_master_pod_name_from_endpoints first_address
  master_found =
      bind-ok _ _ s s endpoints (map_err-ok _ _ s s endpoints settled.answered)
      ∙ rw settled.addressed (unfold pure in refl)

  abbrev names : List Str
  names = map (λ (p : Pod). p.meta.name) pods

  info : get_actual_replica_info client cluster s ≡ (ok (int32 (pos (length pods)), names), s)
  unfolding get_actual_replica_info try
  info = rw settled.listed (unfold pure in refl)

  pub replicas_idle :
      (order : List Str → List Str) (polls : ℕ)
      → reconcile_replicas client order polls cluster s ≡ (ok tt, s)
  unfolding reconcile_replicas
  replicas_idle order polls =
      bind-ok _ _ s s _ info
      ∙ rw ((eqb_ℤ_iff (int32 (pos (length pods))) cluster.spec.replicas).1 settled.counted)
          (unfold pure in refl)

  -- The name of a replica whose threads run.
  abbrev Runs : Str → Type 0
  Runs x =
      (found : Pod) × (output : Str) × (client.get_pod cluster.namespace x s ≡ (ok found, s))
      × (client.run_command found slave_status_command s ≡ (ok output, s))
      × (is_replicating output ≡ true)

  no_failures :
      (xs : List Str)
      → ((x : Str) → In x xs → Runs x)
      → failed_replicas client cluster xs s ≡ (ok [], s)
  unfolding failed_replicas slave_status
  no_failures [] h = unfold pure in refl
  no_failures (x ∷ xs) h =
      let (found, output, read, ran, fine) = h x (inl refl) in
      bind-ok _ _ s s output
        (bind-ok _ _ s s found (map_err-ok _ _ s s found read) ∙ map_err-ok _ _ s s output ran)
      ∙ bind-ok _ _ s s [] (no_failures xs (λ y m. h y (inr m)))
      ∙ rw fine (unfold pure in refl)

  names-Runs : (x : Str) → In x (others master names) → Runs x
  names-Runs x m =
      let (m', ne) = (In-others master x names).0 m in
      let (q, i, e) = name-pod pods x m' in rw e (settled.replicating q i (λ same. ne (e ∙ same)))

  others_found : get_replica_pods_names client cluster master s ≡ (ok (others master names), s)
  unfolding get_replica_pods_names
  others_found = bind-ok _ _ s s _ info ∙ (unfold pure in refl)

  status_fine : check_replica_status client cluster s ≡ (ok (master, []), s)
  unfolding check_replica_status
  status_fine =
      bind-ok _ _ s s master (map_err-ok _ _ s s master master_found)
      ∙ bind-ok _ _ s s (others master names)
          (map_err-ok _ _ s s (others master names) others_found)
      ∙ bind-ok _ _ s s [] (no_failures (others master names) names-Runs)
      ∙ (unfold pure in refl)

  role_fine : (q : Pod) → In q pods → ensure_slave_role client cluster master q s ≡ (ok tt, s)
  unfolding ensure_slave_role
  role_fine q m = elim (Bool-cases (str_eq q.meta.name master)) [
    | inl same ↦ rw same (unfold pure in refl)
    | inr differ ↦
        let slave = settled.enslaved q m (λ e. cc (differ, (str_eq_iff q.meta.name master).1 e)) in
        rw (differ, (str_eq_iff (role_of q) (lit "slave")).1 slave) (unfold pure in refl)
  ]

  roles_fine :
      (qs : List Pod)
      → ((q : Pod) → In q qs → In q pods)
      → for_each (ensure_slave_role client cluster master) qs s ≡ (ok tt, s)
  unfolding for_each
  roles_fine [] h = unfold pure in refl
  roles_fine (q ∷ qs) h =
      bind-ok _ _ s s tt (role_fine q (h q (inl refl))) ∙ roles_fine qs (λ p m. h p (inr m))

  nothing : pure tt s ≡ (ok tt, s)
  unfolding pure
  nothing = refl

  pub leader_idle : (observed : Observed) → repair_replicas client observed cluster s ≡ (ok tt, s)
  unfolding repair_replicas ensure_slave_roles
  leader_idle observed =
      bind-ok _ _ s s (master, []) status_fine
      ∙ bind-ok _ _ s s tt nothing
      ∙ bind-ok _ _ s s master master_found
      ∙ bind-ok _ _ s s pods settled.listed
      ∙ roles_fine pods (λ p m. m)
