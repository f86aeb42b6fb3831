-- ===== src/Exec.antt =====
-- execCommandOnPod of internal/controller/utlis.go: the request that runs a command in a pod. The
-- packages rest, kubernetes and remotecommand are not part of the repository: their calls are the
-- fields of a record.
use raft_based_mysql_cluster.Prelude.{
  Str, lit, List, [], ◌∷◌, Option, none, some, ◌≡◌, ◌≢◌, ◌↔◌, refl, ap, ◌∙◌,
}
use raft_based_mysql_cluster.Prelude.Assoc.{Assoc}
use raft_based_mysql_cluster.Go.{Result, ok, Go, pure, ◌>>=◌}
use raft_based_mysql_cluster.Go.Rules.{bind-ok, bind-gives}
use raft_based_mysql_cluster.Kube.{Pod, Container}

-- The calls of restClient.Post() on the way to req, in their order.
pub record ExecRequest : Type 0 where
  pub resource : Str
  pub name : Str
  pub namespace : Str
  pub sub_resource : Str
  pub params : Assoc Str

pub record Stages (S : Type 0) : Type 1 where
  pub Config : Type 0
  pub KubeClient : Type 0
  pub Executor : Type 0
  pub in_cluster_config : Go S Config
  pub new_for_config : Config → Go S KubeClient
  pub new_spdy_executor : Config → Str → KubeClient → ExecRequest → Go S Executor
  pub stream : Executor → Go S Str

-- `panicked` is the panic of an index out of range.
pub data Ran : Type 0 where
  output : Str → Ran
  panicked : Ran

unfoldable pub exec_request : Pod → Str → Option ExecRequest
exec_request pod command = elim pod.containers [
  | [] ↦ none
  | container ∷ _ ↦ some (record {
    resource = lit "pods";
    name = pod.meta.name;
    namespace = pod.meta.namespace;
    sub_resource = lit "exec";
    params =
        (lit "stdin", lit "false")
        ∷ (lit "stdout", lit "true")
        ∷ (lit "stderr", lit "true")
        ∷ (lit "tty", lit "false")
        ∷ (lit "container", container.name)
        ∷ (lit "command", lit "/bin/sh")
        ∷ (lit "command", lit "-c")
        ∷ (lit "command", command)
        ∷ [];
  })
]

module _ {S : Type 0} (stages : Stages S) where
  open stages use {Config, KubeClient, in_cluster_config, new_for_config, new_spdy_executor, stream}

  unfoldable pub run_request : Config → KubeClient → Option ExecRequest → Go S Ran
  run_request config kube_client none = pure panicked
  run_request config kube_client (some req) = do
    executor ← new_spdy_executor config (lit "POST") kube_client req
    text ← stream executor
    pure (output text)

  unfoldable pub exec_command_on_pod : Pod → Str → Go S Ran
  exec_command_on_pod pod command = do
    config ← in_cluster_config
    kube_client ← new_for_config config
    run_request config kube_client (exec_request pod command)

no_panic :
    {S : Type 0} (stages : Stages S) (config : stages.Config) (kube : stages.KubeClient)
    (req : ExecRequest) (s : S)
    → (run_request stages config kube (some req) s).0 ≢ ok panicked
unfolding run_request pure
no_panic stages config kube req s h =
    let (executor, s1, e, h1) = bind-gives _ _ s panicked h in
    let (text, s2, e', h2) = bind-gives _ _ s1 panicked h1 in cc h2

module _ {S : Type 0} (stages : Stages S) (config : stages.Config) (kube : stages.KubeClient) where
  empty_of :
      (pod : Pod) (command : Str) (s : S)
      → (run_request stages config kube (exec_request pod command) s).0 ≡ ok panicked
      → pod.containers ≡ []
  unfolding exec_request
  empty_of pod command s = go pod.containers
    where
      go :
          (containers : List Container)
          → (run_request stages config kube
              (exec_request (record pod { containers = containers }) command)
              s).0
            ≡ ok panicked
          → containers ≡ []
      go [] h = refl
      go (container ∷ rest) h = absurd (no_panic stages config kube _ s h)

  of_empty :
      (pod : Pod) (command : Str) (s : S)
      → pod.containers ≡ []
      → (run_request stages config kube (exec_request pod command) s).0 ≡ ok panicked
  unfolding exec_request run_request pure
  of_empty pod command s e = rw e refl

-- A command panics exactly if the configuration and the client are there and the pod has no
-- container.
pub exec_panics_iff :
    {S : Type 0} (stages : Stages S) (pod : Pod) (command : Str) (s : S)
    → ((exec_command_on_pod stages pod command s).0 ≡ ok panicked) ↔ (
        (pod.containers ≡ [])
        × ((config : stages.Config) × (s1 : S) × (kube : stages.KubeClient) × (s2 : S)
            × (stages.in_cluster_config s ≡ (ok config, s1))
            × (stages.new_for_config config s1 ≡ (ok kube, s2))))
unfolding exec_command_on_pod exec_request
exec_panics_iff {S} stages pod command s = (
  λ h.
      let (config, s1, e, h1) = bind-gives _ _ s panicked h in
      let (kube, s2, e', h2) = bind-gives _ _ s1 panicked h1 in
      (empty_of stages config kube pod command s2 h2, (config, s1, kube, s2, e, e')),
  λ (none_there, (config, s1, kube, s2, e, e')).
      ap (λ (o : Result Ran × S). o.0) (bind-ok _ _ s s1 config e ∙ bind-ok _ _ s1 s2 kube e')
      ∙ of_empty stages config kube pod command s2 none_there,
)
