-- ===== src/Tests/TotalRuns.antt =====
-- The store as an API server that works and lists its pods, and instances of the theorems on it.
use raft_based_mysql_cluster.Prelude.{
  List, Str, lit, str_eq, str_eq_refl, true, [], ◌∷◌, ◌≡◌, inl, inr, refl, In, Bool-cases,
}
use raft_based_mysql_cluster.Go.Returns.{Returns, Answers, Returns-pure}
use raft_based_mysql_cluster.Kube.{Pod}
use raft_based_mysql_cluster.Resources.{is_pod_healthy, new_pod}
use raft_based_mysql_cluster.Resources.Working.{Working}
use raft_based_mysql_cluster.Prelude.Decimal.{show_02}
use raft_based_mysql_cluster.Replicas.{pod_name}
use raft_based_mysql_cluster.Tests.Data.{three}
use raft_based_mysql_cluster.Tests.Store.{
  Key, Objects, missing, same_key, has, read, pod_of, store_by, presence_by,
}

same_key_refl : (key : Key) → same_key key key ≡ true
same_key_refl (k, n, x) = rw (str_eq_refl k, str_eq_refl n, str_eq_refl x) refl

In-has : (key : Key) (s : Objects) → In key s → has key s ≡ true
In-has key [] m = elim m [ ]
In-has key (first ∷ s) (inl e) = rw (← e, same_key_refl key) refl
In-has key (first ∷ s) (inr m) = elim (Bool-cases (same_key key first)) [
  | inl e ↦ rw e refl
  | inr e ↦ rw (e, In-has key s m) refl
]

pub Reads-read :
    {A : Type 0} (kind n x : Str) (a : A)
    → Answers (λ _. Unit {0}) (λ _ _. Unit {0}) (λ _ _. Unit {0}) (read kind n x a)
Reads-read kind n x a = record {
  at = λ s p. elim (Bool-cases (has (kind, n, x) s)) [
    | inl e ↦ rw e (inl (a, s, refl, tt))
    | inr e ↦ rw e (inr (missing, s, refl, tt))
  ];
}

-- A read that fails does so since there is nothing.
pub read-Answers :
    {A : Type 0} (kind n x : Str) (a : A)
    → Answers
        (λ _. Unit {0})
        (λ _ _. Unit {0})
        (λ e s. (e.not_found ≡ true) × (Unit {0} × (¬ In (kind, n, x) s)))
        (read kind n x a)
read-Answers kind n x a = record {
  at = λ s p. elim (Bool-cases (has (kind, n, x) s)) [
    | inl e ↦ rw e (inl (a, s, refl, tt))
    | inr e ↦ rw e (inr (missing, s, refl, (refl, (tt, λ m. cc (e, In-has (kind, n, x) s m)))))
  ];
}

pub read_fails :
    {A : Type 0} (kind n x : Str) (a : A)
    → Answers
        (λ _. Unit {0})
        (λ _ _. Unit {0})
        (λ e s. Unit {0} × (¬ In (kind, n, x) s))
        (read kind n x a)
read_fails kind n x a = record {
  at = λ s p. elim ((read-Answers kind n x a).at s p) [
    | inl h ↦ inl h
    | inr (e, s', run, (found, rest)) ↦ inr (e, s', run, rest)
  ];
}

pub read_there :
    {A : Type 0} (kind n x : Str) (a : A) (Q : A → Objects → Type 0)
    → ((s : Objects) → In (kind, n, x) s → Q a s)
    → Returns (λ s. In (kind, n, x) s) Q (read kind n x a)
read_there kind n x a Q f = record { at = λ s m. rw (In-has (kind, n, x) s m) (a, s, refl, f s m) }

pub healthy : (n x : Str) → is_pod_healthy (pod_of n x) ≡ true
unfolding is_pod_healthy str_eq
healthy n x = refl

-- A pod that was created is there.
pub pod_made :
    (P : Objects → Type 0) (list : Str → Objects → List Pod) (answer x image config : Str)
    → Returns P
        (λ _ s. In (lit "pod", lit "default", x) s)
        ((store_by list answer).create_pod (new_pod x image config x (lit "default") three))
unfolding new_pod
pod_made P list answer x image config = record { at = λ s p. (tt, _, refl, inl refl) }

abbrev pub works_by :
    (list : Str → Objects → List Pod) (answer : Str)
    → Working (store_by list answer) (presence_by list answer) three
works_by list answer = record {
  Up = λ _. Unit;
  Starting = λ k x s. In (lit "pod", lit "default", x) s;
  Fresh = λ p s. Unit;
  boot = 0;
  quantities = (refl, (refl, (refl, (refl, (refl, tt)))));
  get_config_map = λ x. read_fails _ _ x _;
  create_config_map = λ i m. record { at = λ s p. (tt, _, refl, tt) };
  get_claim = λ x. read_fails _ _ x _;
  create_claim = λ i m. record { at = λ s p. (tt, _, refl, tt) };
  get_service = λ x. read-Answers _ _ x _;
  create_service = λ x role m. record { at = λ s p. (tt, _, refl, tt) };
  get_pod = λ x. read_fails _ _ x _;
  get_pod_there = λ x. record {
    at = λ s (up, m).
        (read_there (lit "pod") (lit "default") x (pod_of (lit "default") x) _
            (λ s m. ((refl, refl), (tt, tt)))).at
          s m;
  };
  create_pod = λ i m. pod_made _ list answer (pod_name (show_02 i)) _ _;
  wait_pod = λ k x. record {
    at = λ s m. inl (
        (read_there (lit "pod") (lit "default") x (pod_of (lit "default") x) _
            (λ s m. inl (healthy (lit "default") x, tt))).at
          s m);
  };
  ready_pod = λ x.
      read_there (lit "pod") (lit "default") x (pod_of (lit "default") x) _
        (λ s m. (healthy (lit "default") x, tt));
  update_pod = λ p role m. Returns-pure _ tt (λ s q. tt);
  run_command = λ p x cmd e f m. Returns-pure _ answer (λ s q. tt);
  update_cluster = Returns-pure _ tt (λ s q. tt);
}
