-- ===== src/Tests/EntryRuns.antt =====
-- The start of the operator, and the events that it watches.
use raft_based_mysql_cluster.Prelude.{
  Str, lit, true, Bool-cases, if◌then◌else◌, List, [], ◌∷◌, ◌≡◌, ◌↔◌, inl, inr, refl, In,
}
use raft_based_mysql_cluster.Go.{ok}
use raft_based_mysql_cluster.Kube.{OwnerReference}
use raft_based_mysql_cluster.Resources.{new_pod}
use raft_based_mysql_cluster.Replication.{with_role}
use raft_based_mysql_cluster.Reconciler.Watch.{Requests, registered, pod_event-asks}
use raft_based_mysql_cluster.Entry.{
  ManagerOptions, Runtime, returned, default_flags, manager_options, main,
}
use raft_based_mysql_cluster.Entry.Safe.{IsStarted, AsAsked, main_iff}
use raft_based_mysql_cluster.Tests.Data.{three}

-- A manager that writes down the checks that it is given.
abbrev quiet : Runtime (List Str)
quiet = record {
  Config = Unit;
  get_config = λ s. (ok tt, s);
  Manager = ManagerOptions;
  new_manager = λ config options s. (ok options, s);
  complete = λ mgr w s. (ok tt, w.kind ∷ s);
  add_healthz_check = λ mgr x s. (ok tt, x ∷ s);
  add_readyz_check = λ mgr x s. (ok tt, x ∷ s);
  start = λ mgr s. (ok tt, s);
}

main_iff_example :
    (((main quiet default_flags []).0 ≡ ok returned) ↔ IsStarted quiet default_flags [])
    × AsAsked default_flags (manager_options default_flags)
main_iff_example = main_iff quiet default_flags []

-- The object itself, and the object that controls it.
abbrev owners : Str → List OwnerReference → List (Str × Str)
owners n [] = []
owners n (owner ∷ rest) =
    let more = owners n rest in if owner.controller then (n, owner.name) ∷ more else more

In-owners :
    (n : Str) (owner : OwnerReference) (refs : List OwnerReference)
    → In owner refs
    → owner.controller ≡ true
    → In (n, owner.name) (owners n refs)
In-owners n owner [] m e = elim m [ ]
In-owners n owner (first ∷ rest) (inl same) e = rw (← same, e) (inl refl)
In-owners n owner (first ∷ rest) (inr m) e = elim (Bool-cases first.controller) [
  | inl t ↦ rw t (inr (In-owners n owner rest m e))
  | inr f ↦ rw f (In-owners n owner rest m e)
]

abbrev asked_for : Requests
asked_for = record {
  of_event = λ w kind o. (o.namespace, o.name) ∷ owners o.namespace o.owner_references;
  own = λ w o. inl refl;
  controller = λ w kind o owner k m e v f. inr (In-owners o.namespace owner o.owner_references m e);
}

pod_event_example :
    In
      (lit "default", lit "db")
      (asked_for.of_event registered
        (lit "Pod")
        (new_pod (lit "mysql-01") [] [] [] (lit "default") three).meta)
    × In
        (lit "default", lit "db")
        (asked_for.of_event registered
          (lit "Pod")
          (with_role (lit "slave") (new_pod (lit "mysql-01") [] [] [] (lit "default") three)).meta)
pod_event_example = pod_event-asks asked_for (lit "mysql-01") [] [] [] (lit "slave") three
