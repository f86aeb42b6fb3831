-- ===== src/Lib.antt =====
-- Verification of the Raft-based MySQL cluster operator: a Kubernetes operator in Go that creates
-- the pods of a MySQL cluster, elects a master by a Raft protocol of its own, and keeps the other
-- pods replicating from it.
--
-- The parts of the program and the modules that model them (paths from the repository's root):
-- - api/v1/mysqlcluster_types.go: the custom resource and its status, in Api.
-- - internal/controller/raft.go: RaftManager, in Raft. Raft/Node has its state and constructor and
--   the names of the nodes, Raft/Vote HandleVoteRequest, Raft/Append HandleAppendEntries,
--   Raft/Election the timers' rounds, startElection, becomeLeader, sendHeartbeats and
--   updateClusterStatus, Raft/Message the messages. A handler holds the lock of the node, so it is
--   one function from a node to a node; Raft/Steps has the relation of all steps, and the nodes
--   that they reach. Raft/World has the one node that the repository runs, with the goroutines of its
--   elections as steps of their own. int64 keeps its wrap-around where the code adds; times are
--   nanoseconds.
-- - internal/controller/raft_monitoring.go: RaftMonitor, in Monitor; the rounds of its tickers
--   in Monitor/Rounds.
-- - internal/controller/utlis.go: creating objects in Resources, labels, replication and endpoints in
--   Replication, the request and the stages of execCommandOnPod in Exec.
-- - internal/controller/reconcile_replicas.go and initialization.go: the numbers of the pods in
--   Replicas, reconcileReplicas and init in Controller.
-- - internal/controller/elect_new_master.go: Promotion.
-- - internal/controller/reconcile_master_slave.go: MasterSlave.
-- - internal/controller/raft_mysql_integration.go: RaftMySQLIntegration, in Integration.
-- - internal/controller/mysqlcluster_controller.go: MysqlClusterReconciler, in Reconciler.
-- - cmd/main.go: the options and the stages of the start, in Entry.
--
-- How they interact: Reconcile creates everything at first (Controller), and later starts a node
-- (Raft), fills gaps among the pods (Controller), repairs replicas (MasterSlave, Replication) or fails
-- over to the node that leads (Integration). The node, its monitor and the integration share one
-- MysqlCluster, which is a field of the node here.
--
-- A function that calls the API server is a `Go S A` (Go): from a state to a result and a state, and
-- an error ends a block, and so does a panic: resource.MustParse of a malformed quantity, an address
-- without a target, a label written to a nil map. The API server, the pods and `S` are not part of the repository: Kube/Client
-- has their calls as the fields of a record, Kube/Client/Laws what some theorems rely on. float64 is
-- a record of operations and two laws of its order (Promotion). The order in which Go visits a map is
-- an argument with a predicate (IsVisit). The calls of controller-runtime and of client-go that the
-- start, the watches and execCommandOnPod make are records of the same kind (Entry, Reconciler/Watch,
-- Exec).
--
-- Go/Keeps and Go/Rules have what a run keeps and gives where it returns, Go/Turns what it turns one
-- property of the state into, and Go/Returns and Go/Ends that it returns or ends at all: theorems of
-- the first kinds say nothing of a run that ends in an error, those of the last say when none does.
-- Resources/Working says what it means that the API server and the pods work for a cluster: up-to-date
-- reads, creations where there is nothing of the name, nobody else writing between a read and an
-- update, commands that succeed in running pods. The set of a cluster's
-- pods is a quotient of lists of names (Replicas/View), which forgets their order.
--
-- Loops: those over lists and counters are structural recursion. The wait for a healthy pod and the
-- wait for an election have no bound, or one in time, and take the rounds that are looked at as an
-- argument: a count, after which the result is `waiting`, and a list of observations of the node. The
-- recursion of decimal numerals has as much fuel as the number, which is enough since each digit
-- makes it smaller. The loops of init count in an int32 (up_to): a loop to the largest one never ends,
-- and is observed as `waiting` behind its numbers.
--
-- Not modelled: the generated deep copies and the registration of the types, the parsing of the flags,
-- logging, and the tests. Several nodes are not modelled together: a controller runs the node
-- <cluster>-0 only, and nothing in the repository reads the messages. The code does not compile as it
-- stands (a node lacks the fields Client, heartbeatTimeout and ctx that are used, a node's entry in the
-- status lacks LastContact and IsActive); the model has these fields.
pub mod Prelude
pub mod Api
pub mod Go
pub mod Kube
pub mod Raft
pub mod Monitor
pub mod Resources
pub mod Replicas
pub mod Replication
pub mod Promotion
pub mod Integration
pub mod MasterSlave
pub mod Controller
pub mod Exec
pub mod Reconciler
pub mod Entry
mod Tests
