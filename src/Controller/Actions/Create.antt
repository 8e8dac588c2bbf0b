-- ===== src/Controller/Actions/Create.antt =====
-- CreateManagerAction of internal/controller/actions.go.
pub mod Later
pub mod Safe
pub mod Steps
pub mod Pods
pub mod Reads
pub mod Outcome
use vlanman.Prelude.{
  ℕ, zero, suc, String, List, [], ◌∷◌, Option, none, some, ◌⊎◌, inl, inr, Bool, true, false, not,
  eqb, ◌==◌, ◌&&◌, ◌||◌, length, pos, if◌then◌else◌,
}
use vlanman.Prelude.Equality.{deep_equal}
use vlanman.Prelude.Maps.{insert, or_empty}
use vlanman.Prelude.Text.{◌⧺◌}
use vlanman.Prelude.Run.{return, fail, crash, call, ask, lift, catch, wrap, attempt, ◌>>=◌, ◌>>◌}
use vlanman.Errors.{
  GoError, client_request, request, external, unrecoverable_error, internal_error,
  unimplemented_error, daemon_set_timeout_error, daemon_set_cleanup_error, daemon_pod_timeout_error,
  new_client_request_error,
}
use vlanman.Kube.{Pod, DaemonSet, DaemonSetStatus, Service, NamespacedName}
use vlanman.Kube.Equal.{DaemonSetStatus-discrete}
use vlanman.Api.{VlanNetwork, manager_set_label_key, wait_for_daemon_timeout}
use vlanman.Cluster.{
  Cluster, Operator, Envs, Answer, Response, label_equals, sleep, create_daemon_set, get_daemon_set,
  delete_daemon_set, list_pods, get_pod, http_get, get_network, update_status, create_service,
}
use vlanman.Controller.Manager.{
  ManagerSet, daemon_set_from_manager, service_for_manager_set, no_status,
}
use vlanman.Controller.Interface.{interface_from_daemon}
use vlanman.Controller.Actions.{key_in, when_some, finished, make_job, request_manager_pid, with_up}

-- The zero value of a network.
abbrev no_network : VlanNetwork
no_network = record {
  name = "";
  spec = record {
    gateways = none;
    vlan_id = pos 0;
    manager_affinity = none;
    pools = none;
    mappings = none;
  };
  status = record { free_ips = none; pending_ips = none; state = none; short_state = "" };
}

abbrev pub set_key : DaemonSet → NamespacedName
set_key set = record { namespace = set.namespace; name = set.name }

abbrev pub pod_key : Pod → NamespacedName
pod_key pod = record { namespace = pod.namespace; name = pod.name }

-- The DaemonSet as last read, with the error of the last Get; a failed Get leaves it as it was.
pub record Read : Type 0 where
  pub set : DaemonSet
  pub fault : Option GoError

abbrev pub after_get : DaemonSet → Answer DaemonSet → Read
after_get old (inl e) = record { set = old; fault = some e }
after_get old (inr set) = record { set = set; fault = none }

abbrev pub is_missing : Cluster → Option GoError → Bool
is_missing c none = false
is_missing c (some e) = c.is_not_found e

abbrev pub manager_url : String → String
manager_url ip = "http://" ⧺ (ip ⧺ ":61410")

abbrev pub ready_url : String → String
ready_url ip = "http://" ⧺ (ip ⧺ ":61410/ready")

module _ (c : Cluster) where
  pub read_set : NamespacedName → DaemonSet → Operator Read
  read_set key old = do
    found ← attempt (call (get_daemon_set key) (c.get_daemon_set_answer key))
    return (after_get old found)

  -- The first loop, with the rounds that are left: 31 less `timeout`.
  pub await_status : ℕ → Read → Operator (Read × ℕ)
  await_status zero r = return (r, zero)
  await_status (suc left) r =
      let later = (do
        ask sleep (λ _. tt)
        again ← read_set (set_key r.set) r.set
        await_status left again) in
      if is_missing c r.fault || deep_equal DaemonSetStatus-discrete r.set.status no_status
      then later
      else return (r, suc left)

  -- A read of the second loop, which goes on when the DaemonSet is not found.
  abbrev pub keep_or_fail : DaemonSet → Answer DaemonSet → Operator DaemonSet
  keep_or_fail old (inl e) =
      if not (c.is_not_found e) then fail (client_request "Get Daemonset" e) else return old
  keep_or_fail old (inr set) = return set

  -- The second loop, which uses the rounds that the first one left.
  pub await_available : Envs → ℕ → DaemonSet → Operator (DaemonSet × ℕ)
  await_available env zero set = return (set, zero)
  await_available env (suc left) set =
      let later = (do
        found ← attempt (
            call (get_daemon_set (key_in env set.name))
              (c.get_daemon_set_answer (key_in env set.name)))
        next ← keep_or_fail set found
        ask sleep (λ _. tt)
        await_available env left next) in
      if not (eqb set.status.number_unavailable 0) then later else return (set, suc left)

  abbrev cleaned_up : String → DaemonSetStatus → GoError ⊎ Unit {0} → GoError
  cleaned_up name status (inl e) =
      daemon_set_cleanup_error name status.current_number_scheduled status.desired_number_scheduled
        e
  cleaned_up name status (inr _) =
      daemon_set_timeout_error name status.current_number_scheduled status.desired_number_scheduled

  -- `if err != nil`, and `if timeout > vlanmanv1.WaitForDaemonTimeout` after each loop.
  abbrev pub seen_status : String → Read × ℕ → Operator (DaemonSet × ℕ)
  seen_status name (r, left) = elim r.fault [
    | some e ↦ fail (new_client_request_error "GetDaemonset" e)
    | none ↦ elim left [
      | zero ↦ fail (daemon_set_timeout_error name 0 0)
      | suc more ↦ return (r.set, suc more)
    ]
  ]

  abbrev pub seen_available : String → DaemonSet × ℕ → Operator DaemonSet
  seen_available name (set, suc left) = return set
  seen_available name (set, zero) = do
    gone ← attempt (call (delete_daemon_set set) (c.delete_daemon_set_answer set))
    fail (cleaned_up name set.status gone)

  -- The loop that waits for all pods, which has no bound and no pause, with fuel for its rounds.
  pub await_pods : DaemonSet → String → ℕ → List Pod → Operator (Option (List Pod))
  await_pods set name zero pods =
      return (if eqb (length pods) set.status.desired_number_scheduled then some pods else none)
  await_pods set name (suc fuel) pods =
      let workers = label_equals manager_set_label_key name in
      let later = (do
        found ←
            wrap (call (list_pods workers) (c.list_pods_answer workers))
              (new_client_request_error "ListPods")
        await_pods set name fuel found) in
      if not (eqb (length pods) set.status.desired_number_scheduled)
      then later
      else return (some pods)

  -- The wait for the address of one pod, with the rounds that are left.
  pub await_pod_ip : ℕ → Pod → Operator (Pod × ℕ)
  await_pod_ip zero pod = return (pod, zero)
  await_pod_ip (suc left) pod =
      let later = (do
        again ←
            wrap (call (get_pod (pod_key pod)) (c.get_pod_answer (pod_key pod)))
              (client_request "Wait for pod")
        await_pod_ip left again) in
      if pod.pod_ip == "" then later else return (pod, suc left)

  abbrev pub pod_or_timeout : Pod × ℕ → Operator Pod
  pod_or_timeout (pod, suc left) = return pod
  pod_or_timeout (pod, zero) =
      fail (daemon_pod_timeout_error pod.name (unimplemented_error "Cleanup unimplemented"))

  abbrev first_response : Option Response → Answer Response
  first_response none = inl (request "CheckDaemonReady" (external "Response is nil"))
  first_response (some response) = inr response

  abbrev pub or_crash : Option Response → Operator Response
  or_crash none = crash
  or_crash (some response) = return response

  -- The wait for a response with status 200, which reads one that is nil after its pause; after the last round the code goes on all the same.
  pub await_ready : String → ℕ → Response → Operator (Unit {0})
  await_ready url zero response = return tt
  await_ready url (suc left) response =
      let later = (do
        answer ← wrap (call (http_get url) (c.http_get_answer url)) (request "CheckDaemonReady")
        ask sleep (λ _. tt)
        next ← or_crash answer
        await_ready url left next) in
      if not (eqb response.status_code 200) then later else return tt

  abbrev or_zero_network : Answer VlanNetwork → VlanNetwork
  or_zero_network (inl _) = no_network
  or_zero_network (inr vlan) = vlan

  -- The connection of the pod is up; the errors of both calls are dropped.
  pub note_up : String → String → Operator (Unit {0})
  note_up network pod = do
    found ← attempt (call (get_network network) (c.get_network_answer network))
    let vlan = or_zero_network found
    let up = record vlan { status = with_up pod vlan.status }
    _ ← attempt (call (update_status up) (c.update_status_answer up))
    return tt

  -- The body of the loop over the pods.
  pub start_pod : Envs → ManagerSet → Pod → Operator (Unit {0})
  start_pod env mgr pod = do
    waited ← await_pod_ip wait_for_daemon_timeout pod
    ready ← pod_or_timeout waited
    pid ← request_manager_pid c ready.pod_ip
    _ ← make_job c (
        interface_from_daemon ready pid mgr.vlan_id env.ttl env.interface_pod_image
          mgr.owner_network_name env.interface_pod_pull_policy mgr.mappings false)
    let url = manager_url ready.pod_ip
    answer ← wrap (call (http_get url) (c.http_get_answer url)) (request "CheckDaemonReady")
    first ← lift (first_response answer)
    await_ready (ready_url ready.pod_ip) 31 first
    note_up mgr.owner_network_name ready.name

  pub start_pods : Envs → ManagerSet → List Pod → Operator (Unit {0})
  start_pods env mgr [] = return tt
  start_pods env mgr (pod ∷ pods) = do start_pod env mgr pod; start_pods env mgr pods

  -- What follows the wait for the pods.
  pub start_all : Envs → ManagerSet → List Pod → Operator (Unit {0})
  start_all env mgr pods = do
    start_pods env mgr pods
    let svc = service_for_manager_set mgr env.namespace_name
    wrap (call (create_service svc) (c.create_service_answer svc)) (client_request "CreateService")

  -- CreateManagerAction.Do and execute.
  pub create_manager_do : Envs → ℕ → ManagerSet → Operator (Option (Unit {0}))
  create_manager_do env fuel mgr = do
    wanted ←
        wrap (lift (daemon_set_from_manager c mgr env))
          (unrecoverable_error "Error creating a daemonset from manager specification")
    made ←
        wrap (call (create_daemon_set wanted) (c.create_daemon_set_answer wanted))
          (client_request "Create daemonset")
    first ← read_set (set_key made) made
    waited ← await_status wait_for_daemon_timeout first
    seen ← seen_status mgr.owner_network_name waited
    polled ← await_available env seen.1 seen.0
    set ← seen_available mgr.owner_network_name polled
    wrap (lift (c.new_requirement manager_set_label_key mgr.owner_network_name))
        (λ _. internal_error "Error creating a label selector requirement in createDesiredState")
    pods ← await_pods set mgr.owner_network_name fuel []
    when_some pods (λ pods. finished (start_all env mgr pods))
