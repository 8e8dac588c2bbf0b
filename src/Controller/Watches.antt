-- ===== src/Controller/Watches.antt =====
-- SetupWithManager of internal/controller/vlanman_controller.go: which events of pods are
-- reconciled. An event is enqueued where it passes the predicate.
use vlanman.Prelude.{
  String, [], ◌∷◌, Option, none, some, Bool, true, false, not, ◌&&◌, ◌==◌, ◌≡◌, refl,
}
use vlanman.Prelude.Maps.{Dict, lookup, lookup-insert}
use vlanman.Kube.{Pod}
use vlanman.Api.{VlanNetwork, pod_vlanman_network_annotation, worker_pod_label_key}
use vlanman.PodWebhook.Patch.{apply_patch, label_pod}

abbrev is_set : Option String → Bool
is_set none = false
is_set (some val) = not (val == "")

pub has_vlanman_annotation : Pod → Bool
has_vlanman_annotation pod = is_set (lookup pod_vlanman_network_annotation pod.annotations)

abbrev pub is_absent : Option String → Bool
is_absent none = true
is_absent (some _) = false

pub not_job : Pod → Bool
not_job pod = is_absent (lookup "job-name" pod.labels)

pub data PodEvent : Type 0 where
  created updated deleted generic : Pod → PodEvent

-- annotationPredicate
pub annotation_predicate : PodEvent → Bool
annotation_predicate (created pod) = has_vlanman_annotation pod && not_job pod
annotation_predicate (updated pod) = false
annotation_predicate (deleted pod) = has_vlanman_annotation pod && not_job pod
annotation_predicate (generic pod) = has_vlanman_annotation pod && not_job pod

job-label_pod :
    (labels : Dict String) (network : String)
    → lookup "job-name" (label_pod labels network) ≡ lookup "job-name" labels
unfolding label_pod
job-label_pod [] network = refl
job-label_pod (l ∷ labels) network =
    lookup-insert worker_pod_label_key "job-name" network (l ∷ labels)

passes-apply_patch :
    (pod : Pod) (net : VlanNetwork) (image policy ip : String) (endpoints : Dict String)
    (routes network : String)
    → lookup pod_vlanman_network_annotation pod.annotations ≡ some network
    → (network == "") ≡ false
    → let made = apply_patch pod net image policy ip endpoints routes in
      (has_vlanman_annotation made && not_job made) ≡ is_absent (lookup "job-name" pod.labels)
unfolding has_vlanman_annotation not_job apply_patch
passes-apply_patch pod net image policy ip endpoints routes network e named =
    rw (e, named, job-label_pod pod.labels net.name) refl

-- A pod that the webhook gave an address is reconciled when it is created and when it is
-- deleted, unless it came with the label of a job: then no event of it is. None is where it is updated.
pub annotation_predicate-apply_patch :
    (pod : Pod) (net : VlanNetwork) (image policy ip : String) (endpoints : Dict String)
    (routes network : String)
    → lookup pod_vlanman_network_annotation pod.annotations ≡ some network
    → (network == "") ≡ false
    → let made = apply_patch pod net image policy ip endpoints routes in
      (annotation_predicate (created made) ≡ is_absent (lookup "job-name" pod.labels))
      × (annotation_predicate (deleted made) ≡ is_absent (lookup "job-name" pod.labels))
      × (annotation_predicate (generic made) ≡ is_absent (lookup "job-name" pod.labels))
      × (annotation_predicate (updated made) ≡ false)
unfolding annotation_predicate
annotation_predicate-apply_patch pod net image policy ip endpoints routes network e named =
    let passes = passes-apply_patch pod net image policy ip endpoints routes network e named in
    (passes, passes, passes, refl)
