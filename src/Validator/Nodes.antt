-- ===== src/Validator/Nodes.antt =====
-- Which affinities validateMinimumNodes accepts.
use vlanman.Prelude.{
  List, [], ◌∷◌, Option, none, some, Bool, true, not, ◌≡◌, refl, ◌↔◌, any, inr, arith, ◌<◌,
}
use vlanman.Kube.{Node, Term}
use vlanman.Api.{VlanNetwork}
use vlanman.Validator.{
  Validator, check_nodes, excluded, required_terms, available_nodes, validate_minimum_nodes,
}

abbrev pub is_available : Option (List Term) → Node → Bool
is_available none node = true
is_available (some terms) node = not (excluded terms node)

available_pos :
    (terms : List Term) (nodes : List Node)
    → (any (λ n. not (excluded terms n)) nodes ≡ true) ↔ (0 < available_nodes terms nodes)
unfolding available_nodes
available_pos terms [] = (λ h. cc, λ h. absurd (omega arith))
available_pos terms (n ∷ nodes) = ground (arith, available_pos terms nodes)

-- A network is accepted exactly when some node is left that no required term excludes by its host name.
pub validate_minimum_nodes_iff :
    (v : Validator) (net : VlanNetwork)
    → (validate_minimum_nodes v net ≡ inr tt)
      ↔ (any (is_available (required_terms net.spec.manager_affinity)) v.nodes ≡ true)
unfolding validate_minimum_nodes
validate_minimum_nodes_iff v net = cases (required_terms net.spec.manager_affinity) v.nodes
  where
    cases :
        (terms : Option (List Term)) (nodes : List Node)
        → (check_nodes terms nodes ≡ inr tt) ↔ (any (is_available terms) nodes ≡ true)
    cases terms [] = (λ h. cc, λ h. cc)
    cases none (n ∷ nodes) = (λ _. refl, λ _. refl)
    cases (some terms) (n ∷ nodes) = ground (arith, available_pos terms (n ∷ nodes))
