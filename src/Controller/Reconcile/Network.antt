-- ===== src/Controller/Reconcile/Network.antt =====
-- reconcileNetwork of internal/controller/vlanman_controller.go: it compares the managers wanted with
-- those that run, does every action of the difference, and collects their errors.
pub mod Ran
pub mod Quiet
use vlanman.Prelude.{ℕ, ℤ, String, List, [], ◌∷◌, Option, none, some, ◌⊎◌, inl, inr, ◌≡◌, refl, ◌≢◌}
use vlanman.Prelude.Run.{Result, ok, err, panic, return, fail, call, wrap, attempt, ◌>>=◌}
use vlanman.Errors.{
  GoError, Errors, nil, cons, client_request, reconcile_error, reconcile_error_list,
}
use vlanman.Api.{VlanNetwork}
use vlanman.Cluster.{Cluster, Event, Operator, Envs, list_networks}
use vlanman.Controller.Manager.{ManagerSet}
use vlanman.Controller.Diff.{
  VlanNetworkState, Action, create_manager, update_manager, delete_manager, spawn_interface,
  get_current_state, create_desired_state, diff_states,
}
use vlanman.Controller.Actions.{finished, spawn_interface_do, delete_manager_do, update_manager_do}
use vlanman.Controller.Actions.Create.{create_manager_do}

-- Do of the four actions; `none` where the fuel of a wait without a bound ran out.
pub do_action : Cluster → Envs → ℕ → Action → Operator (Option (Unit {0}))
do_action c env fuel (create_manager mgr _) = create_manager_do c env fuel mgr
do_action c env fuel (update_manager mgr _) = finished (update_manager_do c env mgr)
do_action c env fuel (delete_manager mgr) = finished (delete_manager_do c env mgr)
do_action c env fuel (spawn_interface pod_name network) =
    spawn_interface_do c env fuel network pod_name

-- reflect.TypeOf(action)
abbrev type_of : Action → String
type_of (create_manager _ _) = "*controller.CreateManagerAction"
type_of (update_manager _ _) = "*controller.UpdateManagerAction"
type_of (delete_manager _) = "*controller.DeleteManagerAction"
type_of (spawn_interface _ _) = "*controller.SpawnInterfaceAction"

-- What the loop adds to errList.
abbrev pub noted : Action → GoError → Option Errors → Option Errors
noted action e none = none
noted action e (some later) = some (cons (reconcile_error (type_of action) e) later)

module _ (c : Cluster) (env : Envs) (fuel : ℕ) where
  -- The rest of the loop after one action.
  abbrev pub after_action :
      Action → Operator (Option Errors) → GoError ⊎ Option (Unit {0}) → Operator (Option Errors)
  after_action action rest (inl e) = do later ← rest; return (noted action e later)
  after_action action rest (inr none) = return none
  after_action action rest (inr (some _)) = rest

  -- The loop over the actions.
  pub run_actions : List Action → Operator (Option Errors)
  run_actions [] = return (some nil)
  run_actions (action ∷ actions) = do
    out ← attempt (do_action c env fuel action)
    after_action action (run_actions actions) out

  -- The end of the function: `none` where the fuel ran out, else the duration, which is nil.
  abbrev pub report : Option Errors → Operator (Option (Option ℤ))
  report none = return none
  report (some nil) = return (some none)
  report (some (cons e es)) = fail (reconcile_error_list (cons e es))

  abbrev pub needed : List VlanNetwork → List ManagerSet × List VlanNetworkState → List Action
  needed networks current = diff_states (create_desired_state networks) current.0 current.1

  -- reconcileNetwork
  pub reconcile_network : Operator (Option (Option ℤ))
  reconcile_network = do
    networks ← wrap (call list_networks c.list_networks_answer) (client_request "List VlanNetworks")
    current ← get_current_state c
    failed ← run_actions (needed networks current)
    report failed
