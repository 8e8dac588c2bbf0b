-- ===== src/Validator/Handlers.antt =====
-- What the three handlers let through.
use vlanman.Prelude.{
  List, [], ◌∷◌, Bool, true, false, ◌≡◌, refl, ◌≢◌, List-cases, ◌↔◌, ◌⊎◌, any, ◌||◌, ◌==◌, inl, inr,
  arith, int_eq, ◌∙◌, String, map, sym, keep, inl_ne_inr,
}
use vlanman.Prelude.Equality.{deep_equal, deep_equal_iff}
use vlanman.Prelude.Run.{ok}
use vlanman.Prelude.Ok.{lift_ok, wrap-lift_ok, wrap-call_ok}
use vlanman.Prelude.Text.{◌⧺◌}
use vlanman.Prelude.Ends.{Ends, Ends-lift, Ends-bind-wrap-lift, Ends-bind-wrap-call}
use vlanman.Errors.{GoError, net_in_use_error}
use vlanman.Kube.{Pod}
use vlanman.Api.{VlanNetwork, worker_pod_label_key}
use vlanman.Api.Equal.{VlanNetworkSpec-discrete}
use vlanman.Cluster.{Cluster, Event, a_network, label_equals, list_pods}
use vlanman.Validator.{
  Validator, cleared, validate_update_of, names_in_use, validate_not_in_use, unique_among,
  validate_unique, validate_creation, run_deletion_validator, validate_create, validate_delete,
  required_terms,
}
use vlanman.Validator.Nodes.{is_available, validate_minimum_nodes_iff}

cleared_equal :
    (a b : VlanNetwork)
    → deep_equal VlanNetworkSpec-discrete (cleared a.spec) (cleared b.spec) ≡ true
unfolding cleared
cleared_equal a b =
    (deep_equal_iff VlanNetworkSpec-discrete (cleared a.spec) (cleared b.spec)).1 refl

-- An update is accepted exactly when some node is left for the new network: no field of the spec
-- is compared, so any change of the VLAN id, the gateways or the mappings passes.
pub validate_update_of_iff :
    (v : Validator) (new_network old_network : VlanNetwork)
    → (validate_update_of v new_network old_network ≡ inr tt)
      ↔ (any (is_available (required_terms new_network.spec.manager_affinity)) v.nodes ≡ true)
unfolding validate_update_of
validate_update_of_iff v new_network old_network =
    ground (arith, validate_minimum_nodes_iff v new_network, cleared_equal new_network old_network)

abbrev pub is_in_use : Pod → Bool
is_in_use pod = pod.phase == "Pending" || pod.phase == "Running"

-- The pods that are in use, each with its name and its namespace.
abbrev pub told_in_use : List Pod → List String
told_in_use pods = map (λ pod. pod.name ⧺ ("@" ⧺ pod.namespace)) (keep is_in_use pods)

names_in_use-told : (pods : List Pod) → names_in_use pods ≡ told_in_use pods
unfolding names_in_use
names_in_use-told [] = refl
names_in_use-told (p ∷ pods) = ground (arith, names_in_use-told pods)

told_in_use-nil : (pods : List Pod) → (told_in_use pods ≡ []) ↔ (any is_in_use pods ≡ false)
told_in_use-nil [] = (λ _. refl, λ _. refl)
told_in_use-nil (p ∷ pods) = ground (arith, told_in_use-nil pods)

-- What is said of the pods: nothing where none is in use, and else which are.
abbrev pub IsRefusal : List Pod → VlanNetwork → GoError → Type 0
IsRefusal pods network e =
    (any is_in_use pods ≡ true) × (e ≡ net_in_use_error (told_in_use pods) network.name)

validate_not_in_use_cases :
    (pods : List Pod) (network : VlanNetwork)
    → ((any is_in_use pods ≡ false) × (validate_not_in_use pods network ≡ inr tt))
      ⊎ ((any is_in_use pods ≡ true)
          × (validate_not_in_use pods network
              ≡ inl (net_in_use_error (told_in_use pods) network.name)))
unfolding validate_not_in_use
validate_not_in_use_cases pods network =
    rw (names_in_use-told pods) (elim (List-cases (told_in_use pods)) [
      | inl e ↦ inl ((told_in_use-nil pods).0 e, rw e refl)
      | inr (p, ps, e) ↦ inr (ground (arith, told_in_use-nil pods), rw e refl)
    ])

module _ (c : Cluster) (network : VlanNetwork) (h : List Event) where
  abbrev labelled : List Event
  labelled = list_pods (label_equals worker_pod_label_key network.name) ∷ h

  abbrev Listed : GoError ⊎ List Pod → Type 0
  Listed answer = c.list_pods_answer (label_equals worker_pod_label_key network.name) h ≡ answer

  -- The deletion is let through: the pods with the label of the network were listed, and none is in use.
  abbrev pub IsDeletable : Unit {0} → List Event → Type 0
  IsDeletable _ h' =
      (h' ≡ labelled) × (pods : List Pod) × Listed (inr pods) × (any is_in_use pods ≡ false)

  -- It is refused, as the label is none, the pods could not be listed, or some are in use.
  abbrev pub IsRefused : GoError → List Event → Type 0
  IsRefused e h' =
      ((cause : GoError) × (c.new_requirement worker_pod_label_key network.name ≡ inl cause)
        × (h' ≡ h))
      ⊎ (((cause : GoError) × Listed (inl cause) × (h' ≡ labelled))
          ⊎ ((pods : List Pod) × Listed (inr pods) × IsRefusal pods network e × (h' ≡ labelled)))

  -- Where the name of the network makes a label, a deletion lists the pods with that label and calls
  -- nothing else. Where they can be listed, it is refused exactly when one of them is pending or
  -- running, and the error then tells the name and the namespace of each such pod, in their order;
  -- else it is let through. It never panics.
  pub validate_delete-Ends :
      Ends IsDeletable IsRefused (λ _. ⊥) (validate_delete c (a_network network) h)
  unfolding validate_delete run_deletion_validator
  validate_delete-Ends =
      Ends-bind-wrap-lift _ _ _ h (λ e bad. inl (e, bad, refl))
        (λ _ _.
          Ends-bind-wrap-call _ _ _ _ h (λ e failed. inr (inl (e, failed, refl)))
            (λ pods listed. elim (validate_not_in_use_cases pods network) [
              | inl (unused, passes) ↦ rw passes (
                  Ends-lift _ _ (λ e no. absurd (inl_ne_inr (sym no)))
                    (λ _ _. (refl, pods, listed, unused)))
              | inr (used, refuses) ↦ rw refuses (
                  Ends-lift _ _ (λ e same. inr (inr (pods, listed, (used, cc), refl)))
                    (λ _ no. absurd (inl_ne_inr no)))
            ]))

unique_among-refuses :
    (net : VlanNetwork) (networks : List VlanNetwork)
    → any (λ nw. int_eq nw.spec.vlan_id net.spec.vlan_id) networks ≡ true
    → unique_among net networks ≢ inr tt
unfolding unique_among
unique_among-refuses net [] h = cc
unique_among-refuses net (nw ∷ networks) h = ground (arith, unique_among-refuses net networks)

creation_refuses :
    (v : Validator) (network : VlanNetwork)
    → any (λ nw. int_eq nw.spec.vlan_id network.spec.vlan_id) v.networks ≡ true
    → validate_creation v network ≢ inr tt
unfolding validate_creation validate_unique
creation_refuses v network taken = ground (arith, unique_among-refuses network v.networks taken)

not_in_use :
    (pods : List Pod) (network : VlanNetwork)
    → any is_in_use pods ≡ false
    → validate_not_in_use pods network ≡ inr tt
not_in_use pods network unused = ground (arith, validate_not_in_use_cases pods network)

-- A creation is accepted when no pod labelled with the name is in use, after the one call that
-- lists those pods; also where some network has the VLAN id already, for which
-- CreationValidator, which no handler makes, refuses the network.
pub duplicate_created :
    (c : Cluster) (v : Validator) (network : VlanNetwork) (pods : List Pod) (h : List Event)
    → any (λ nw. int_eq nw.spec.vlan_id network.spec.vlan_id) v.networks ≡ true
    → c.new_requirement worker_pod_label_key network.name ≡ inr tt
    → c.list_pods_answer (label_equals worker_pod_label_key network.name) h ≡ inr pods
    → any is_in_use pods ≡ false
    → (validate_creation v network ≢ inr tt)
      × (validate_create c (a_network network) h
          ≡ (ok tt, list_pods (label_equals worker_pod_label_key network.name) ∷ h))
unfolding validate_create run_deletion_validator
duplicate_created c v network pods h taken labelled answer unused = (
  creation_refuses v network taken,
  wrap-lift_ok _ _ labelled h
      ∙ wrap-call_ok _ _ _ _ _ answer
      ∙ lift_ok (not_in_use pods network unused) _,
)
