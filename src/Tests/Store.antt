-- ===== src/Tests/Store.antt =====
-- An API server whose state is the list of the objects created, and pods that answer every command
-- with the same text; its laws.
use raft_based_mysql_cluster.Prelude.{
  ℤ, ltb_ℤ, ◌+ℤ◌, Str, lit, str_eq, str_eq_iff, Bool, true, false, ◌&&◌, List, [], ◌∷◌, ◌≡◌, inl,
  inr, refl, In, Bool-cases, arith, if◌then◌else◌, some,
}
use raft_based_mysql_cluster.Go.{Error, ok, err, Go, pure}
use raft_based_mysql_cluster.Go.Keeps.{Ensures, Keeps}
use raft_based_mysql_cluster.Go.Rules.{Keeps-pure}
use raft_based_mysql_cluster.Kube.{ObjectMeta, Pod}
use raft_based_mysql_cluster.Kube.Client.{Client}
use raft_based_mysql_cluster.Kube.Client.Laws.{AllKeep, Anything, Presence}
use raft_based_mysql_cluster.Promotion.{Floats}
use raft_based_mysql_cluster.Replicas.Missing.{IsVisit}
use raft_based_mysql_cluster.Tests.Data.{three}

-- The kind, the namespace and the name of an object.
abbrev pub Key : Type 0
Key = Str × Str × Str

abbrev pub Objects : Type 0
Objects = List Key

-- The answer with which an object that is missing is reported.
abbrev pub missing : Error
missing = record { text = lit "not found"; not_found = true }

abbrev pub same_key : Key → Key → Bool
same_key (k, n, x) (k', n', x') = str_eq k k' && (str_eq n n' && str_eq x x')

abbrev pub has : Key → Objects → Bool
has key [] = false
has key (first ∷ s) = let rest = has key s in if same_key key first then true else rest

abbrev pub read : {A : Type 0} → Str → Str → Str → A → Go Objects A
read kind n x a s = if has (kind, n, x) s then (ok a, s) else (err missing, s)

abbrev pub made : Str → ObjectMeta → Go Objects (Unit {0})
made kind meta s = (ok tt, (kind, meta.namespace, meta.name) ∷ s)

abbrev pub meta_of : Str → Str → ObjectMeta
meta_of n x = record { name = x; namespace = n; labels = []; owner_references = [] }

abbrev pub pod_of : Str → Str → Pod
pod_of n x = record {
  meta = meta_of n x;
  containers = [];
  config_map_name = [];
  claim_name = [];
  phase = lit "Running";
  container_ready = true ∷ [];
}

-- A list has what `list` makes of the namespace and the objects; every pod answers `answer`.
abbrev pub store_by : (Str → Objects → List Pod) → Str → Client Objects
store_by list answer = record {
  is_quantity = λ text. true;
  get_cluster = λ n x. pure three;
  update_cluster = λ o. pure tt;
  update_cluster_status = λ o. pure tt;
  get_config_map = λ n x. read (lit "configmap") n x (record { meta = meta_of n x; content = [] });
  create_config_map = λ o. made (lit "configmap") o.meta;
  update_config_map = λ o. pure tt;
  get_claim = λ n x.
      read (lit "claim") n x
        (record { meta = meta_of n x; access_modes = []; storage = []; storage_class_name = [] });
  create_claim = λ o. made (lit "claim") o.meta;
  get_pod = λ n x. read (lit "pod") n x (pod_of n x);
  list_pods = λ n k v s. (ok (list n s), s);
  create_pod = λ o. made (lit "pod") o.meta;
  update_pod = λ o. pure tt;
  get_service = λ n x. read (lit "service") n x (record {
    meta = meta_of n x;
    selector = [];
    port = 3306;
    target_port = 3306;
    protocol = [];
    service_type = [];
  });
  create_service = λ o. made (lit "service") o.meta;
  get_endpoints = λ n x. pure (record { subsets = (some (lit "mysql-01") ∷ []) ∷ [] });
  run_command = λ o cmd. pure answer;
}

-- Every list has the pods `listed`.
abbrev pub store : List Pod → Str → Client Objects
store listed answer = store_by (λ n s. listed) answer

same_key-eq : (key first : Key) → same_key key first ≡ true → key ≡ first
same_key-eq (k, n, x) (k', n', x') h =
    ground (arith, str_eq_iff k k', str_eq_iff n n', str_eq_iff x x')

pub has-In : (key : Key) (s : Objects) → has key s ≡ true → In key s
has-In key [] h = absurd (cc h)
has-In key (first ∷ s) h = elim (Bool-cases (same_key key first)) [
  | inl e ↦ inl (same_key-eq key first e)
  | inr e ↦ inr (has-In key s (rw e at h))
]

module _ (key : Key) where
  Keeps-read : {A : Type 0} (kind n x : Str) (a : A) → Keeps (λ s. In key s) (read kind n x a)
  Keeps-read kind n x a = record {
    at = λ s p. elim (Bool-cases (has (kind, n, x) s)) [ inl e ↦ rw e (p, tt) | inr e ↦ rw e p ];
  }

  Keeps-made : (kind : Str) (meta : ObjectMeta) → Keeps (λ s. In key s) (made kind meta)
  Keeps-made kind meta = record { at = λ s p. (inr p, tt) }

  pub store_keeps :
      (list : Str → Objects → List Pod) (answer : Str)
      → AllKeep (store_by list answer) (λ s. In key s)
  store_keeps list answer = record {
    get_cluster = λ n x. Keeps-pure _;
    update_cluster = λ o. Keeps-pure _;
    update_cluster_status = λ o. Keeps-pure _;
    get_config_map = λ n x. Keeps-read _ n x _;
    create_config_map = λ o. Keeps-made _ o.meta;
    update_config_map = λ o. Keeps-pure _;
    get_claim = λ n x. Keeps-read _ n x _;
    create_claim = λ o. Keeps-made _ o.meta;
    get_pod = λ n x. Keeps-read _ n x _;
    list_pods = λ n k v. record { at = λ s p. (p, tt) };
    create_pod = λ o. Keeps-made _ o.meta;
    update_pod = λ o. Keeps-pure _;
    get_service = λ n x. Keeps-read _ n x _;
    create_service = λ o. Keeps-made _ o.meta;
    get_endpoints = λ n x. Keeps-pure _;
    run_command = λ o cmd. Keeps-pure _;
  }

pub read-there :
    {A : Type 0} (kind n x : Str) (a : A)
    → Ensures Anything (λ _ s. In (kind, n, x) s) (read kind n x a)
read-there kind n x a = record {
  at = λ s p. elim (Bool-cases (has (kind, n, x) s)) [
    | inl e ↦ rw e (tt, has-In _ s e)
    | inr e ↦ rw e tt
  ];
}

pub made-there :
    (kind : Str) (meta : ObjectMeta)
    → Ensures Anything (λ _ s. In (kind, meta.namespace, meta.name) s) (made kind meta)
made-there kind meta = record { at = λ s p. (tt, inl refl) }

abbrev pub presence_by :
    (list : Str → Objects → List Pod) (answer : Str) → Presence (store_by list answer)
presence_by list answer = record {
  HasConfigMap = λ n x s. In (lit "configmap", n, x) s;
  HasClaim = λ n x s. In (lit "claim", n, x) s;
  HasPod = λ n x s. In (lit "pod", n, x) s;
  HasService = λ n x s. In (lit "service", n, x) s;
  read_config_map = λ n x. read-there _ n x _;
  made_config_map = λ o. made-there _ o.meta;
  read_claim = λ n x. read-there _ n x _;
  made_claim = λ o. made-there _ o.meta;
  read_pod = λ n x. read-there _ n x _;
  made_pod = λ o. made-there _ o.meta;
  read_service = λ n x. read-there _ n x _;
  made_service = λ o. made-there _ o.meta;
  kept_config_map = λ n x. store_keeps (lit "configmap", n, x) list answer;
  kept_claim = λ n x. store_keeps (lit "claim", n, x) list answer;
  kept_pod = λ n x. store_keeps (lit "pod", n, x) list answer;
  kept_service = λ n x. store_keeps (lit "service", n, x) list answer;
}

abbrev pub store_presence : (listed : List Pod) (answer : Str) → Presence (store listed answer)
store_presence listed answer = presence_by (λ n s. listed) answer

pub never_below_itself : (x : ℤ) → ltb_ℤ x x ≡ false
never_below_itself x = ground arith

pub below_twice : (x y z : ℤ) → ltb_ℤ x y ≡ true → ltb_ℤ y z ≡ true → ltb_ℤ x z ≡ true
below_twice x y z h k = ground arith

-- Scores as whole numbers.
abbrev pub whole : Floats
whole = record {
  Float = ℤ;
  of_int = λ x. x;
  add = λ x y. x +ℤ y;
  div = λ x y. x;
  lt = ltb_ℤ;
  irreflexive = never_below_itself;
  transitive = below_twice;
}

-- The order in which the keys were added.
pub in_order : IsVisit (λ l. l)
in_order = record { same = λ l x. ((λ m. m), (λ m. m)); once = λ l d. d }
