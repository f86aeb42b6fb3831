-- ===== src/Replicas.antt =====
-- internal/controller/reconcile_replicas.go: the numbers of pods, found in their names, expected by
-- the specification, and missing.
pub mod Numbers
pub mod Missing
pub mod View
use raft_based_mysql_cluster.Prelude.{
  ℕ, zero, suc, ℤ, pos_part, Str, lit, str_eq, contains, Bool, true, false, List, [], ◌∷◌, ◌++◌,
  Option, none, some, ◌==◌, if◌then◌else◌,
}
use raft_based_mysql_cluster.Prelude.Decimal.{is_digit, show_02}

-- What is left of a string behind a prefix.
unfoldable pub strip : Str → Str → Option Str
strip [] s = some s
strip (c ∷ prefix) [] = none
strip (c ∷ prefix) (d ∷ s) = if c == d then strip prefix s else none

-- The digits that a string begins with.
unfoldable pub leading_digits : Str → Str
leading_digits [] = []
leading_digits (c ∷ s) = let rest = leading_digits s in if is_digit c then c ∷ rest else []

abbrev pub nonempty : Str → Option Str
nonempty [] = none
nonempty (c ∷ s) = some (c ∷ s)

-- The group of a match of mysql-(\d+) at the start of a string.
unfoldable pub match_here : Str → Option Str
unfolding strip leading_digits
match_here s = elim (strip (lit "mysql-") s) [
  | none ↦ none
  | some rest ↦ nonempty (leading_digits rest)
]

-- FindStringSubmatch: the group of the leftmost match.
unfoldable pub find_submatch : Str → Option Str
unfolding match_here
find_submatch [] = none
find_submatch (c ∷ s) =
    let later = find_submatch s in elim (match_here (c ∷ s)) [ none ↦ later | some d ↦ some d ]

-- extractPodNumbers
unfoldable pub extract_pod_numbers : List Str → List Str
extract_pod_numbers [] = []
extract_pod_numbers (name ∷ names) = elim (find_submatch name) [
  | none ↦ extract_pod_numbers names
  | some number ↦ number ∷ extract_pod_numbers names
]

-- The rounds i, i + 1, … of the loop, `n` of them.
unfoldable pub numbers_from : ℕ → ℕ → List Str
numbers_from i zero = []
numbers_from i (suc n) = show_02 i ∷ numbers_from (suc i) n

-- generateExpectedPodNumbers; a negative count gives no round.
unfoldable pub generate_expected_pod_numbers : ℤ → List Str
unfolding numbers_from
generate_expected_pod_numbers count = numbers_from 1 (pos_part count)

-- A map[string]struct{} is the list of its keys, each once.
unfoldable pub add_key : Str → List Str → List Str
add_key k set = if contains set k then set else k ∷ set

unfoldable pub add_keys : List Str → List Str → List Str
add_keys [] set = set
add_keys (k ∷ ks) set = add_keys ks (add_key k set)

-- delete(set, k)
unfoldable pub delete : Str → List Str → List Str
delete k [] = []
delete k (j ∷ set) = if str_eq j k then delete k set else j ∷ delete k set

unfoldable pub delete_all : List Str → List Str → List Str
delete_all [] set = set
delete_all (k ∷ ks) set = delete_all ks (delete k set)

-- findMissingPodNumbers; `order` is the order in which Go visits the keys of a map.
unfoldable pub find_missing_pod_numbers : (List Str → List Str) → List Str → List Str → List Str
find_missing_pod_numbers order expected actual = order (delete_all actual (add_keys expected []))

-- fmt.Sprintf("mysql-%s", podNumber)
unfoldable pub pod_name : Str → Str
pod_name number = lit "mysql-" ++ number

-- fmt.Sprintf("mysql-config-%s", podNumber)
unfoldable pub config_map_name : Str → Str
config_map_name number = lit "mysql-config-" ++ number
