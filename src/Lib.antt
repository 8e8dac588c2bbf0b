-- ===== src/Lib.antt =====
-- Vlanman: a Kubernetes operator that gives pods addresses in VLANs.
--
-- A VlanNetwork resource has pools of addresses. A pod that is annotated with a network and a pool
-- is changed by the mutating webhook, which takes a lease, picks a free address, writes it to the
-- pending addresses of the network's status and hands the address to an init container. The
-- controller recomputes the status from the pods that it finds: an address that a worker pod holds
-- leaves the free and the pending ones, and a pending address is dropped after a timeout. A second
-- webhook validates the networks, and a manager pod for each network runs in a DaemonSet.
--
-- Files, with the code they model:
--   Prelude: shared types, tests, lists, maps, texts, decimals, equality (reflect.DeepEqual), the order of
--     texts with sorting and searching, runs of code with effects (Run) and rules for how they end
--     (Ends, Ok).
--   Errors: pkg/errors, and the errors of internal/controller/actions.go. An error is a value of
--     GoError, a constructor for each error type. Errors/Texts has the Error methods and GetCallerInfo;
--     Errors/Told is about how these end.
--   Kube: the fields of Kubernetes objects that the code uses. Payload is what it passes along.
--   Api: api/v1/vlanman_types.go and constants.go; Api/ShortState has UpdateShortState.
--   Cluster: the calls of the Kubernetes API, the lease and the clock as events, and what they answer.
--   Locker: pkg/locker/locker.go.
--   Ipam: the loop of Default in internal/webhook/corev1/webhook.go and PopulateStatus of
--     pkg/utils/utils.go. Ipam/Choice and Ipam/Series are about the choice, Ipam/Admission about what a
--     request leaves in the status.
--   Utils: ParseRequest and IpToByteArray of pkg/utils/utils.go, with Utils/Requests and Utils/Octets;
--     Utils/Callers has its GetCallerInfo.
--   PodWebhook: Default of internal/webhook/corev1/webhook.go; PodWebhook/Patch has applyPatch and
--     mergeAffinity. Lock, Success and ReadBack are about them; Claims is about Default as a request of
--     Sharing.
--   Sharing: the webhook and the controller together, on the addresses of one network: a request, the
--     creation or the end of a pod, the listing of pods and an update are events of one system, in any order.
--     Listing, Invariant, Requests and Updates keep what it relies on, for Safety and Reclaim. The server
--     refuses a stale write, so a request reads and writes in one step.
--   Validator: internal/webhook/v1/validator.go and vlanman_webhook.go.
--   Controller/Vlan, Controller/Status: extractVlan, updateVlanNetworkStatus and
--     UpdateAllNetworkStatus of internal/controller/vlanman_controller.go. Status/Refresh is the pure
--     part of an update; Status/Shared is about an update as one of Sharing.
--   Controller/Watches: the predicate of SetupWithManager of the same file.
--   Controller/Reconcile: Reconcile and ensurePodMonitor of the same file; Reconcile/Network has
--     reconcileNetwork, Reconcile/Request the whole of Reconcile with res.
--   Controller/Diff: getCurrentState, createDesiredState, diffManagers and diffStates of the same
--     file, and state.go. Diff/Actions, Networks, Spawns, Settled and Quiet are about the actions;
--     Reconcile/Network/Quiet is about a cluster that needs none.
--   Controller/Actions: internal/controller/actions.go; Actions/Create has CreateManagerAction.
--     Actions/Jobs is about the job that makes an interface, Actions/Address about the wait for an
--     address, Actions/Pid about the request for a process, Actions/Spawned about the job
--     for it, Actions/Outcomes and Create/Outcome about what the actions leave; Create/Later, Safe,
--     Steps, Reads and Pods are about the steps of CreateManagerAction.
--   Controller/Manager, Controller/Interface: internal/controller/manager.go and interface.go.
--   Host: what the programs on a node ask of it (netlink, /sys/class/net, commands, requests) as
--     events, and what it answers. Host/Exits has rules for programs that exit.
--   Cmd/Interface: cmd/interface/main.go, which the job runs. Interface/Endings is about how it ends,
--     Interface/FromManager about the job that the operator makes for it.
--   Cmd/Worker: cmd/worker/main.go, the init container. Worker/Trace is about its calls, Worker/FromManager
--     about them where the daemon answers, Worker/FromWebhook about the container that the webhook makes for it.
--   Cmd/Manager: cmd/manager/main.go, watch.go and collector.go, the daemon: getEnvs, the watch of the
--     interface (Watch), the handlers macvlan (Macvlan) and pid (Pid), the gateway with the callbacks of the election
--     (Leader, with Addresses, Routes, Setup, Held, Kernel and Terms about what these ask of the node),
--     downgradeStatus (Status), the metrics (Collector), and main (Main). Manager/FromOperator is
--     about the DaemonSet that the operator makes, Status/Downgrade about what the operator makes of a
--     downgrade, Main/Served about the requests of the other programs, Main/Started about how main ends,
--     Collector/Collected about the metrics that are sent, Collector/Changes about the counter of leaders.
--   Cmd/Operator: the environment in cmd/operator/main.go; Operator/Main has main, with what it registers.
--   Tests: concrete inputs and the theorems at them.
--
-- State and effects: a handler is a function from the events so far, newest first, to a result and
-- the events after it. A result is a value, an error or a panic. What a call answers is a function of
-- the events before it, so the cluster may answer anything at any time: other writers are covered.
-- A webhook that changes an object in place returns the changed object. A program on a node is such a
-- function too, with the calls of netlink as events; its error is the code of os.Exit. The watcher's
-- atomic writes are a list, and another goroutine may see the state between any two of them.
--
-- Numbers: ports and times are natural numbers, an int is an ℤ, a time is the number of nanoseconds
-- since the zero time, and time.Until saturates at the bounds of 64 bits. strconv.ParseInt checks its
-- 64 bits.
--
-- Maps are association lists with one entry for a key. Go visits a map in any order: a list stands for
-- one such order, and a theorem about all lists holds for each.
--
-- Loops are recursions on lists. The tries of a lease and the retries of a status update are counted
-- down from the code's own bounds, 3 and 5, and the waits for a job, a DaemonSet or a pod from 30 and 31
-- rounds. Two waits have no bound in the code, that of SpawnInterfaceAction for the address of its pod
-- and that of CreateManagerAction for the pods of its DaemonSet: they have fuel, one for each round, and
-- an action whose fuel runs out has no result, which is `none`. An Error method and GetCallerInfo may
-- call each other: their fuel is one more than the callers that the runtime does not find.
--
-- Parameters, for code of libraries: the answers of the cluster, labels.NewRequirement, the tests
-- apierrors.Is..., time.Format and time.Parse, encoding/json on routes, gateways
-- and the messages of pkg/comms, the HTTP responses, the answers of a node, ParseIP, ParseCIDR and
-- IPNet.String of package net on opaque addresses, the descriptions and metrics of Prometheus, what procfs
-- reads, what the runtime knows of the callers of a function, and what controller-runtime answers to a registration.
--
-- slices.SortFunc is an insertion sort, and slices.BinarySearchFunc finds what its documentation says
-- for a sorted slice.
--
-- Not modelled: the HTTP server, the leader election, which calls its callbacks when and from whatever
-- goroutine it does, and the signals of the manager, which are libraries
-- but for a few lines; IsValidIPv4 of pkg/utils, a regular expression that nothing calls; logging, the
-- arguments in some texts of fmt.Errorf, generated code and packaging.
pub mod Prelude
pub mod Errors
pub mod Kube
pub mod Api
pub mod Cluster
pub mod Locker
pub mod Ipam
pub mod Utils
pub mod PodWebhook
pub mod Sharing
pub mod Validator
pub mod Controller
pub mod Host
pub mod Cmd
pub mod Tests
