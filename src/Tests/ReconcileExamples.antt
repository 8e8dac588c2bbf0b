-- ===== src/Tests/ReconcileExamples.antt =====
-- The actions and the reconciliation on the fixtures.
use vlanman.Prelude.{String, List, [], ◌∷◌, none, some, inl, inr, ◌≡◌, refl, arith}
use vlanman.Prelude.Ends.{Ends}
use vlanman.Prelude.Run.{ok}
use vlanman.Api.{VlanNetwork, state_up, manager_set_label_key}
use vlanman.Errors.{external}
use vlanman.Kube.{Pod, NamespacedName}
use vlanman.Cluster.{Cluster, get_pod, sleep, label_exists, list_daemon_sets, list_networks}
use vlanman.Controller.Manager.{create_desired_manager_set, no_status}
use vlanman.Controller.Diff.{VlanNetworkState, zero_state}
use vlanman.Controller.Actions.{
  no_daemon_set, key_in, finished, spawn_interface_do, spawn_interface_on,
}
use vlanman.Controller.Actions.Address.{has, waits, spawn_interface_do-Gets}
use vlanman.Controller.Actions.Create.{create_manager_do}
use vlanman.Controller.Actions.Create.Outcome.{IsCreating, create_manager_do-IsCreating}
use vlanman.Controller.Actions.Create.Safe.{IsNil}
use vlanman.Controller.Actions.Create.Later.{Failed}
use vlanman.Controller.Reconcile.Network.{reconcile_network}
use vlanman.Controller.Reconcile.Network.Ran.{IsSettled, IsFaulty, reconcile_network-Ends}
use vlanman.Controller.Reconcile.Network.Quiet.{made_for, reconcile_network-quiet}
use vlanman.Tests.Fixtures.{office, plain_pod, env, healthy}

abbrev office_state : VlanNetworkState
office_state = record zero_state { name = "net" }

abbrev addressed : Pod
addressed = record plain_pod { pod_ip = "192.168.0.9" }

-- The pod has its address at the second read.
abbrev slow : Cluster
slow = record healthy {
  get_pod_answer = λ _ h. elim h [ [] ↦ inr plain_pod | _ ∷ _ ↦ inr addressed ];
}

spawn_interface_do-Gets_example :
    spawn_interface_do slow env 5 office_state "web" []
    ≡ finished
        (spawn_interface_on slow env office_state addressed)
        (get_pod (key_in env "web") ∷ sleep ∷ get_pod (key_in env "web") ∷ [])
spawn_interface_do-Gets_example =
    spawn_interface_do-Gets slow env 5 1 office_state "web" plain_pod addressed [] _ refl
      (waits refl refl (has refl)) (omega arith)

-- The DaemonSet has one pod at once.
abbrev started : Cluster
started = record healthy {
  get_daemon_set_answer = λ _ h. elim h [
    | [] ↦ inl (external "NotFound")
    | _ ∷ _ ↦ inr (record no_daemon_set {
      name = "vlan-manager-net";
      status = record no_status { desired_number_scheduled = 1 };
    })
  ];
}

create_manager_do-IsCreating_example :
    Ends
      (IsCreating started env (create_desired_manager_set office) [])
      (λ _. Failed [])
      (IsNil started)
      (create_manager_do started env 5 (create_desired_manager_set office) [])
create_manager_do-IsCreating_example =
    create_manager_do-IsCreating started env (create_desired_manager_set office) 5 []

reconcile_network-Ends_example :
    Ends
      (IsSettled started env 5 [])
      (IsFaulty started env 5 [])
      (λ _. Unit)
      (reconcile_network started env 5 [])
reconcile_network-Ends_example = reconcile_network-Ends started env 5 []

abbrev web : NamespacedName
web = record { namespace = "default"; name = "web" }

-- Two networks that are as they should be.
abbrev settled : String → VlanNetwork
settled name = record office {
  name = name;
  spec = record office.spec { gateways = some []; mappings = some [] };
  status = record office.status { state = some (("pod-a", state_up) ∷ []) };
}

abbrev two_networks : List VlanNetwork
two_networks = settled "lab" ∷ settled "office" ∷ []

abbrev steady : Cluster
steady = record healthy {
  list_networks_answer = λ _. inr two_networks;
  list_daemon_sets_answer = λ _ _. inr (made_for env (λ _. "[]") two_networks);
}

reconcile_network-quiet_example : reconcile_network steady env 3 [] ≡ (
  ok (some none),
  list_daemon_sets (label_exists manager_set_label_key) ∷ list_networks ∷ list_networks ∷ [],
)
reconcile_network-quiet_example =
    reconcile_network-quiet steady env 3 (λ _. "[]") two_networks [] refl refl refl refl
      (refl, (refl, tt)) ((refl, tt), ((refl, tt), tt))
      ((refl, omega arith, refl), ((refl, omega arith, refl), tt))
