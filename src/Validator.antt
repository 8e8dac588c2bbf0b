-- ===== src/Validator.antt =====
-- The validating webhook on networks: internal/webhook/v1/validator.go and vlanman_webhook.go.
pub mod Nodes
pub mod Handlers
use vlanman.Prelude.{
  ℕ, zero, suc, ◌+◌, String, List, [], ◌∷◌, ◌++◌, Option, none, some, Bool, true, false, not, ◌&&◌,
  ◌||◌, ◌⊎◌, inl, inr, any, int_eq, pos, ◌==◌, eqb, if◌then◌else◌,
}
use vlanman.Prelude.Equality.{deep_equal}
use vlanman.Prelude.Run.{return, fail, call, lift, wrap, ◌>>=◌, ◌>>◌}
use vlanman.Prelude.Text.{◌⧺◌}
use vlanman.Errors.{
  GoError, external, wrapped, internal_error, net_in_use_error, type_mismatch_error,
}
use vlanman.Kube.{Pod, Node, Requirement, Term, Affinity, NodeAffinity}
use vlanman.Api.{VlanNetwork, VlanNetworkSpec, worker_pod_label_key}
use vlanman.Api.Equal.{VlanNetworkSpec-discrete}
use vlanman.Cluster.{
  Cluster, Operator, Answer, Object, a_network, type_name, everything, label_equals, list_pods,
  list_nodes, list_networks,
}

pub record Validator : Type 0 where
  pub nodes : List Node
  pub pods : List Pod
  pub networks : List VlanNetwork

-- One expression excludes a node by its host name.
abbrev excludes_by : Node → Requirement → Bool
excludes_by node expr =
    expr.key == "kubernetes.io/hostname"
    && expr.operator == "NotIn"
    && any (λ value. node.name == value) expr.values

-- The loops over the terms and their expressions, each left when a match is found.
abbrev pub excluded : List Term → Node → Bool
excluded terms node = any (λ term. any (excludes_by node) term.match_expressions) terms

-- `availableNodes`
pub available_nodes : List Term → List Node → ℕ
available_nodes terms [] = 0
available_nodes terms (node ∷ nodes) =
    let others = available_nodes terms nodes in if excluded terms node then others else others + 1

-- The terms of the affinity, where each pointer on the way to them is set.
abbrev required_of : Option NodeAffinity → Option (List Term)
required_of none = none
required_of (some node) = node.required

abbrev pub required_terms : Option Affinity → Option (List Term)
required_terms none = none
required_terms (some affinity) = required_of affinity.node_affinity

abbrev no_nodes : GoError
no_nodes = external "There are no available nodes (make sure you don't exclude all nodes)"

abbrev check_available : Option (List Term) → List Node → Answer (Unit {0})
check_available none nodes = inr tt
check_available (some terms) nodes =
    if eqb (available_nodes terms nodes) 0 then inl no_nodes else inr tt

abbrev check_nodes : Option (List Term) → List Node → Answer (Unit {0})
check_nodes terms [] = inl no_nodes
check_nodes terms (node ∷ nodes) = check_available terms (node ∷ nodes)

-- validateMinimumNodes
pub validate_minimum_nodes : Validator → VlanNetwork → Answer (Unit {0})
unfolding available_nodes
validate_minimum_nodes v net = check_nodes (required_terms net.spec.manager_affinity) v.nodes

-- The loop of validateUnique.
pub unique_among : VlanNetwork → List VlanNetwork → Answer (Unit {0})
unique_among net [] = inr tt
unique_among net (nw ∷ networks) =
    if int_eq nw.spec.vlan_id net.spec.vlan_id
    then inl (external ("There exists a network with that VLAN ID: " ⧺ nw.name))
    else unique_among net networks

-- validateUnique
pub validate_unique : Validator → VlanNetwork → Answer (Unit {0})
unfolding unique_among
validate_unique v net = unique_among net v.networks

-- `fmt.Errorf("Couldn't validate minimum node requirement: %w", err)` or the rest.
abbrev after_nodes : Answer (Unit {0}) → Answer (Unit {0}) → Answer (Unit {0})
after_nodes (inl e) rest = inl (wrapped "Couldn't validate minimum node requirement" e)
after_nodes (inr _) rest = rest

-- CreationValidator.Validate
pub validate_creation : Validator → VlanNetwork → Answer (Unit {0})
unfolding validate_minimum_nodes validate_unique
validate_creation v network =
    after_nodes (validate_minimum_nodes v network) (validate_unique v network)

-- The spec after UpdateValidator.Validate has cleared its fields.
pub cleared : VlanNetworkSpec → VlanNetworkSpec
cleared spec = record spec {
  pools = none;
  manager_affinity = none;
  mappings = none;
  gateways = none;
  vlan_id = pos 0;
}

-- UpdateValidator.Validate; the two networks are not read again.
pub validate_update_of : Validator → VlanNetwork → VlanNetwork → Answer (Unit {0})
unfolding cleared
validate_update_of v new_network old_network = after_nodes (validate_minimum_nodes v new_network) (
    if not
      (deep_equal VlanNetworkSpec-discrete (cleared new_network.spec) (cleared old_network.spec))
    then inl (external "The only field in spec that supports update is 'pools'.")
    else inr tt)

-- The names of the pods that are pending or running.
pub names_in_use : List Pod → List String
names_in_use [] = []
names_in_use (p ∷ pods) =
    let rest = names_in_use pods in
    if p.phase == "Pending" || p.phase == "Running"
    then (p.name ⧺ ("@" ⧺ p.namespace)) ∷ rest
    else rest

abbrev refuse_in_use : String → List String → Answer (Unit {0})
refuse_in_use name [] = inr tt
refuse_in_use name (pod ∷ pods) = inl (net_in_use_error (pod ∷ pods) name)

-- validateNotInUse, which DeletionValidator.Validate returns.
pub validate_not_in_use : List Pod → VlanNetwork → Answer (Unit {0})
unfolding names_in_use
validate_not_in_use pods network = refuse_in_use network.name (names_in_use pods)

-- NewDeletionValidator and Validate, as the two handlers call them.
pub run_deletion_validator : Cluster → VlanNetwork → Operator (Unit {0})
run_deletion_validator c network = do
  wrap (lift (c.new_requirement worker_pod_label_key network.name)) (λ _.
      internal_error "Couldn't create a label requirement to list pods in  NewDeletionValidator")
  let workers = label_equals worker_pod_label_key network.name
  pods ← wrap (call (list_pods workers) (c.list_pods_answer workers)) (wrapped "Error listing pods")
  lift (validate_not_in_use pods network)

-- NewCreationValidator and NewUpdateValidator fill a Validator by the same three calls.
unfoldable pub new_validator : Cluster → Operator Validator
new_validator c = do
  pods ←
      wrap (call (list_pods everything) (c.list_pods_answer everything))
        (wrapped "Error listing pods")
  nodes ← wrap (call list_nodes c.list_nodes_answer) (wrapped "Error listing nodes")
  networks ← wrap (call list_networks c.list_networks_answer) (wrapped "Error listing VlanNetworks")
  return (record { nodes = nodes; pods = pods; networks = networks })

-- ValidateCreate, which makes a DeletionValidator.
pub validate_create : Cluster → Object → Operator (Unit {0})
validate_create c (a_network network) = run_deletion_validator c network
validate_create c object = fail (type_mismatch_error "Validating creation" (type_name object))

-- ValidateDelete
unfoldable pub validate_delete : Cluster → Object → Operator (Unit {0})
validate_delete c (a_network network) = run_deletion_validator c network
validate_delete c object = fail (type_mismatch_error "Validating deletion" (type_name object))

-- ValidateUpdate
unfoldable pub validate_update : Cluster → Object → Object → Operator (Unit {0})
validate_update c (a_network old_network) (a_network new_network) = do
  v ← new_validator c
  lift (validate_update_of v new_network old_network)
validate_update c (a_network _) object =
    fail (type_mismatch_error "Validating update" (type_name object))
validate_update c object _ = fail (type_mismatch_error "Validating update" (type_name object))
