-- ===== src/Controller/Actions.antt =====
-- The actions of internal/controller/actions.go: the job that makes an interface, the deletion and the
-- update of a manager, and the spawning of an interface.
pub mod Pid
pub mod Spawned
pub mod Jobs
pub mod Outcomes
pub mod Create
pub mod Address
use vlanman.Prelude.{
  ℕ, zero, suc, ℤ, String, List, [], ◌∷◌, Option, none, some, ◌⊎◌, inl, inr, Bool, true, false, eqb,
  if◌then◌else◌, ◌==◌,
}
use vlanman.Prelude.Maps.{insert, or_empty}
use vlanman.Prelude.Text.{◌⧺◌}
use vlanman.Prelude.Run.{return, fail, call, ask, lift, catch, wrap, attempt, ◌>>=◌, ◌>>◌}
use vlanman.Errors.{
  GoError, external, client_request, request, unrecoverable_error, internal_error, parsing_error,
  new_client_request_error,
}
use vlanman.Kube.{Pod, Job, DaemonSet, NamespacedName}
use vlanman.Api.{VlanNetworkStatus, state_up}
use vlanman.Api.ShortState.{update_short_state}
use vlanman.Cluster.{
  Cluster, Operator, Envs, sleep, create_job, get_job, delete_job, delete_daemon_set,
  update_daemon_set, delete_service, http_get, get_network, update_status, get_pod, Answer,
  Response,
}
use vlanman.Controller.Manager.{
  ManagerSet, daemon_set_from_manager, service_for_manager_set, no_status,
}
use vlanman.Controller.Interface.{interface_from_daemon}
use vlanman.Controller.Diff.{VlanNetworkState}

abbrev pub key_of : Job → NamespacedName
key_of job = record { namespace = job.namespace; name = job.name }

module _ (c : Cluster) (key : NamespacedName) where
  -- The loop that waits for the conflicting job to complete, with the rounds that are left.
  pub await_inactive : ℕ → Job → Operator (Unit {0})
  await_inactive zero job = return tt
  await_inactive (suc left) job =
      let later = (do
        ask sleep (λ _. tt)
        again ←
            wrap (call (get_job key) (c.get_job_answer key))
              (new_client_request_error "Get conflicting job")
        await_inactive left again) in
      if eqb job.active 0 then return tt else later

  -- A read of a job that is being deleted: it is there still, or gone, or the read failed.
  abbrev pub if_there : String → Operator (Unit {0}) → GoError ⊎ Job → Operator (Unit {0})
  if_there action next (inl e) =
      if c.is_not_found e then return tt else fail (new_client_request_error action e)
  if_there action next (inr _) = next

  -- The loop that waits until the job is deleted.
  pub await_deleted : ℕ → Operator (Unit {0})
  await_deleted zero = return tt
  await_deleted (suc left) = do
    ask sleep (λ _. tt)
    found ← attempt (call (get_job key) (c.get_job_answer key))
    if_there "Get conflicting job while waiting for delete" (await_deleted left) found

  -- Where a job of that name exists: waits for it, deletes it, and creates the job again.
  pub recreate_job : Job → Operator Job
  recreate_job job = do
    existing ←
        wrap (call (get_job key) (c.get_job_answer key))
          (new_client_request_error "Get conflicting job")
    await_inactive 30 existing
    wrap (call (delete_job key) (c.delete_job_answer key))
        (new_client_request_error "Delete conflicting job after it finished")
    found ← attempt (call (get_job key) (c.get_job_answer key))
    if_there "Get conflicting job" (await_deleted 31) found
    wrap (call (create_job job) (c.create_job_answer job))
        (new_client_request_error "Create job after deleting conflicting one")

-- The creation of a job, in the two actions that make one.
pub make_job : Cluster → Job → Operator Job
make_job c job = catch (call (create_job job) (c.create_job_answer job)) (λ e.
    if c.is_already_exists e
    then recreate_job c (key_of job) job
    else fail (client_request "Create job" e))

abbrev body_of : Option Response → Option (Answer String)
body_of none = none
body_of (some response) = response.body

-- requestManagerPID
abbrev parse_pid : Cluster → Option (GoError ⊎ String) → GoError ⊎ ℤ
parse_pid c none = inl (request "Get PID" (external "response or response body is nil"))
parse_pid c (some (inl e)) =
    inl (parsing_error "CreatemanagerAction/CreateJob/ReadBodyPIDResponse" e)
parse_pid c (some (inr body)) = elim (c.unmarshal_pid body) [
  | inl e ↦ inl (parsing_error "CreatemanagerAction/CreateJob/UnmarshalBodyPIDResponse" e)
  | inr pid ↦ inr pid
]

abbrev pub pid_url : String → String
pid_url ip = "http://" ⧺ (ip ⧺ ":61410/pid")

pub request_manager_pid : Cluster → String → Operator ℤ
request_manager_pid c ip = do
  let url = pid_url ip
  resp ← wrap (call (http_get url) (c.http_get_answer url)) (request "Get PID")
  lift (parse_pid c (body_of resp))

-- The loop that waits for the created job; once its 31 rounds are used up, the action fails.
pub await_finished : Cluster → ℕ → Job → Operator (Unit {0})
await_finished c zero job =
    fail (internal_error ("Error waiting for vlan interface creation job to complete: " ⧺ job.name))
await_finished c (suc left) job =
    let later = (do
      ask sleep (λ _. tt)
      again ←
          wrap (call (get_job (key_of job)) (c.get_job_answer (key_of job)))
            (new_client_request_error "Get running job")
      await_finished c left again) in
    if eqb job.active 0 then return tt else later

pub with_up : String → VlanNetworkStatus → VlanNetworkStatus
with_up pod status =
    update_short_state
      (record status { state = some (insert pod state_up (or_empty status.state)) })

-- The end of SpawnInterfaceAction.execute: the connection of the pod is up.
pub mark_up : Cluster → String → String → Operator (Unit {0})
mark_up c network pod = do
  vlan ←
      wrap (call (get_network network) (c.get_network_answer network))
        (new_client_request_error ("Get vlan network " ⧺ network))
  let up = record vlan { status = with_up pod vlan.status }
  wrap (call (update_status up) (c.update_status_answer up))
      (new_client_request_error ("Update status of vlan network " ⧺ network))
  return tt

-- SpawnInterfaceAction.Do after the wait for the address of the pod, and execute.
pub spawn_interface_on : Cluster → Envs → VlanNetworkState → Pod → Operator (Unit {0})
spawn_interface_on c env network pod = do
  pid ← request_manager_pid c pod.pod_ip
  let job =
      interface_from_daemon pod pid network.vlan_id env.ttl env.interface_pod_image network.name
        env.interface_pod_pull_policy network.mappings true
  made ← make_job c job
  await_finished c 31 made
  mark_up c network.name pod.name

-- What a wait without a bound returns: `none` where the fuel ran out.
abbrev pub when_some : {A B : Type 0} → Option A → (A → Operator (Option B)) → Operator (Option B)
when_some none next = return none
when_some (some a) next = next a

abbrev pub finished : Operator (Unit {0}) → Operator (Option (Unit {0}))
finished m = do m; return (some tt)

-- The loop `for len(pod.Status.PodIP) == 0`, which has no bound, with fuel for its rounds.
pub await_address : Cluster → NamespacedName → ℕ → Pod → Operator (Option Pod)
await_address c key zero pod = return (if pod.pod_ip == "" then none else some pod)
await_address c key (suc fuel) pod =
    let later = (do
      ask sleep (λ _. tt)
      again ←
          wrap (call (get_pod key) (c.get_pod_answer key))
            (new_client_request_error "Get pod in spawn interface action")
      await_address c key fuel again) in
    if pod.pod_ip == "" then later else return (some pod)

abbrev pub key_in : Envs → String → NamespacedName
key_in env name = record { namespace = env.namespace_name; name = name }

-- SpawnInterfaceAction.Do
pub spawn_interface_do :
    Cluster → Envs → ℕ → VlanNetworkState → String → Operator (Option (Unit {0}))
spawn_interface_do c env fuel network pod_name = do
  let key = key_in env pod_name
  pod ←
      wrap (call (get_pod key) (c.get_pod_answer key))
        (new_client_request_error ("Get pod " ⧺ (pod_name ⧺ ("@" ⧺ env.namespace_name))))
  ready ← await_address c key fuel pod
  when_some ready (λ pod. finished (spawn_interface_on c env network pod))

-- The Delete of the service, which may be gone.
abbrev pub after_service : Cluster → GoError ⊎ Unit {0} → Operator (Unit {0})
after_service c (inl e) =
    if c.is_not_found e then return tt else fail (client_request "Delete service" e)
after_service c (inr _) = return tt

-- DeleteManagerAction.Do and execute.
pub delete_manager_do : Cluster → Envs → ManagerSet → Operator (Unit {0})
delete_manager_do c env mgr = do
  set ←
      wrap (lift (daemon_set_from_manager c mgr env))
        (unrecoverable_error "Error creating a daemonset from manager specification")
  wrap (call (delete_daemon_set set) (c.delete_daemon_set_answer set))
      (client_request "Delete daemonset")
  let svc = service_for_manager_set mgr env.namespace_name
  gone ← attempt (call (delete_service svc) (c.delete_service_answer svc))
  after_service c gone

-- The zero value that daemonSetFromManager returns with an error.
abbrev pub no_daemon_set : DaemonSet
no_daemon_set = record {
  name = "";
  namespace = "";
  labels = [];
  match_labels = [];
  update_strategy = "";
  template = record {
    labels = [];
    service_account_name = "";
    host_pid = false;
    host_network = false;
    node_selector = [];
    containers = [];
    affinity = none;
    restart_policy = "";
    termination_grace_period = none;
  };
  status = no_status;
}

abbrev pub or_zero : GoError ⊎ DaemonSet → DaemonSet
or_zero (inl _) = no_daemon_set
or_zero (inr set) = set

-- UpdateManagerAction.Do, which does not look at the error of daemonSetFromManager.
pub update_manager_do : Cluster → Envs → ManagerSet → Operator (Unit {0})
update_manager_do c env mgr = do
  let set = or_zero (daemon_set_from_manager c mgr env)
  wrap (call (update_daemon_set set) (c.update_daemon_set_answer set))
      (new_client_request_error "Update daemonset")
