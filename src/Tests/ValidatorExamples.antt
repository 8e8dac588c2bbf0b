-- ===== src/Tests/ValidatorExamples.antt =====
-- The validating webhook on the fixtures.
use vlanman.Prelude.{List, [], ◌∷◌, some, none, true, ◌≡◌, refl, ◌≢◌, ◌↔◌, inr, any}
use vlanman.Prelude.Run.{ok}
use vlanman.Prelude.Ends.{Ends}
use vlanman.Kube.{Node, Term}
use vlanman.Api.{VlanNetwork, worker_pod_label_key}
use vlanman.Cluster.{Cluster, a_network, label_equals, list_pods}
use vlanman.Validator.{
  Validator, validate_update_of, validate_create, validate_delete, validate_creation,
  required_terms,
}
use vlanman.Validator.Nodes.{is_available}
use vlanman.Validator.Handlers.{
  IsDeletable, IsRefused, validate_update_of_iff, validate_delete-Ends, duplicate_created,
}
use vlanman.Tests.Fixtures.{office, plain_pod, idle}

-- Two nodes, of which the affinity below excludes one.
abbrev nodes : List Node
nodes = (record { name = "a" }) ∷ (record { name = "b" }) ∷ []

abbrev v : Validator
v = record { nodes = nodes; pods = []; networks = office ∷ [] }

abbrev not_on_a : Term
not_on_a = record {
  match_expressions =
      (record { key = "kubernetes.io/hostname"; operator = "NotIn"; values = "a" ∷ [] }) ∷ [];
  match_fields = record { text = "" };
}

abbrev without_a : VlanNetwork
without_a = record office {
  spec = record office.spec {
    manager_affinity = some (record {
      node_affinity =
          some (record { required = some (not_on_a ∷ []); preferred = record { text = "" } });
      pod_affinity = none;
      pod_anti_affinity = none;
    });
  };
}

validate_update_of_iff_example :
    (validate_update_of v without_a office ≡ inr tt)
    ↔ (any (is_available (required_terms without_a.spec.manager_affinity)) v.nodes ≡ true)
validate_update_of_iff_example = validate_update_of_iff v without_a office

abbrev one_left : Cluster
one_left = record idle { list_pods_answer = λ _ _. inr (plain_pod ∷ []) }

validate_delete-Ends_example :
    Ends
      (IsDeletable one_left office [])
      (IsRefused one_left office [])
      (λ _. ⊥)
      (validate_delete one_left (a_network office) [])
validate_delete-Ends_example = validate_delete-Ends one_left office []

duplicate_created_example :
    (validate_creation v office ≢ inr tt)
    × (validate_create idle (a_network office) []
        ≡ (ok tt, list_pods (label_equals worker_pod_label_key "net") ∷ []))
duplicate_created_example = duplicate_created idle v office [] [] refl refl refl refl
