-- ===== src/Kube.antt =====
-- The Kubernetes objects that the program handles: records of the fields that its code reads or
-- writes. What the code only passes along is kept as an opaque text (`Payload`).
pub mod Equal
use vlanman.Prelude.{String, List, ℕ, Option, ℤ, Bool}
use vlanman.Prelude.Maps.{Dict}

-- A part of an object that the program never looks into.
pub record Payload : Type 0 where
  pub text : String

-- corev1.NodeSelectorRequirement
pub record Requirement : Type 0 where
  pub key : String
  pub operator : String
  pub values : List String

-- corev1.NodeSelectorTerm
pub record Term : Type 0 where
  pub match_expressions : List Requirement
  pub match_fields : Payload

-- corev1.NodeAffinity; `required` is RequiredDuringSchedulingIgnoredDuringExecution.
pub record NodeAffinity : Type 0 where
  pub required : Option (List Term)
  pub preferred : Payload

pub record Affinity : Type 0 where
  pub node_affinity : Option NodeAffinity
  pub pod_affinity : Option Payload
  pub pod_anti_affinity : Option Payload

pub record EnvVar : Type 0 where
  pub name : String
  pub value : String

abbrev pub variable : String → String → EnvVar
variable name value = record { name = name; value = value }

pub record ContainerPort : Type 0 where
  pub name : String
  pub protocol : String
  pub container_port : ℕ

pub record Container : Type 0 where
  pub name : String
  pub image : String
  pub image_pull_policy : String
  pub command : List String
  pub env : List EnvVar
  pub ports : List ContainerPort
  pub capabilities : List String

pub record Pod : Type 0 where
  pub name : String
  pub namespace : String
  pub annotations : Dict String
  pub labels : Dict String
  pub node_name : String
  pub init_containers : List Container
  pub containers : List Container
  pub affinity : Option Affinity
  pub phase : String
  pub pod_ip : String

-- corev1.PodTemplateSpec, with what its spec holds.
pub record PodTemplate : Type 0 where
  pub labels : Dict String
  pub service_account_name : String
  pub host_pid : Bool
  pub host_network : Bool
  pub node_selector : Dict String
  pub containers : List Container
  pub affinity : Option Affinity
  pub restart_policy : String
  pub termination_grace_period : Option ℕ

pub record DaemonSetStatus : Type 0 where
  pub current_number_scheduled : ℕ
  pub desired_number_scheduled : ℕ
  pub number_unavailable : ℕ
  pub others : Payload

pub record DaemonSet : Type 0 where
  pub name : String
  pub namespace : String
  pub labels : Dict String
  pub match_labels : Dict String
  pub update_strategy : String
  pub template : PodTemplate
  pub status : DaemonSetStatus

pub record ServicePort : Type 0 where
  pub name : String
  pub protocol : String
  pub port : ℕ
  pub target_port : ℕ

pub record Service : Type 0 where
  pub name : String
  pub namespace : String
  pub selector : Dict String
  pub internal_traffic_policy : String
  pub ports : List ServicePort

pub record Job : Type 0 where
  pub name : String
  pub namespace : String
  pub ttl_seconds_after_finished : Option ℤ
  pub template : PodTemplate
  pub active : ℕ

pub record Node : Type 0 where
  pub name : String

pub record NamespacedName : Type 0 where
  pub namespace : String
  pub name : String
