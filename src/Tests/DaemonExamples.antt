-- ===== src/Tests/DaemonExamples.antt =====
-- The daemon and the operator as they start, the metrics, and the watch of pods.
use vlanman.Prelude.{
  String, List, [], ◌∷◌, none, some, inr, Bool, true, false, ◌≡◌, refl, All, length, pos, arith,
}
use vlanman.Prelude.Maps.{lookup}
use vlanman.Prelude.Decimal.{take_digits}
use vlanman.Utils.{ip_to_byte_array}
use vlanman.Prelude.Ends.{Ends}
use vlanman.Errors.{external}
use vlanman.PodWebhook.Patch.{apply_patch}
use vlanman.Controller.Watches
use vlanman.Controller.Watches.{annotation_predicate, is_absent, annotation_predicate-apply_patch}
use vlanman.Cmd.Manager.Collector.{Monitor, NetDevLine, new_manager_collector, collect}
use vlanman.Cmd.Manager.Collector.Collected.{IsDescribed, expected, collect-IsExpected}
use vlanman.Cmd.Manager.Main.{Boot, manager_main}
use vlanman.Cmd.Manager.Main.Started.{HasListened, listened, manager_main-HasListened}
use vlanman.Cmd.Manager.Status.{downgrade_status}
use vlanman.Cmd.Manager.Status.Downgrade.{HasDowngraded, downgrade_status-HasDowngraded}
use vlanman.Tests.Fixtures.{office, annotated_pod, healthy}
use vlanman.Tests.NodeExamples.{node, variables}

abbrev same_length : List String → List String → Bool
same_length [] [] = true
same_length (x ∷ xs) (y ∷ ys) = same_length xs ys
same_length _ _ = false

abbrev eth : NetDevLine
eth = record { name = "vlan7"; rx_bytes = 10; tx_bytes = 20; rx_packets = 1; tx_packets = 2 }

abbrev monitor : Monitor
monitor = record {
  takes = λ d ls. same_length ls d.variable_labels;
  proc_fs_answer = λ _. inr tt;
  net_dev_answer = λ _. inr (("vlan7", eth) ∷ []);
  since = λ _ _. pos 5000000000;
  type_of = λ _. "vlan";
  oper_state = λ _. "up";
}

takes_same : (ls ks : List String) → length ls ≡ length ks → same_length ls ks ≡ true
takes_same [] [] h = refl
takes_same (l ∷ ls) (k ∷ ks) h = takes_same ls ks (omega (arith, h))
takes_same [] (k ∷ ks) h = absurd (omega (arith, h))
takes_same (l ∷ ls) [] h = absurd (omega (arith, h))

collect-IsExpected_example :
    Ends
      (λ ms _.
        (ms ≡ expected node monitor "net" (pos 7) variables 3 (some 100) [])
        × All (IsDescribed (new_manager_collector "net" (pos 7))) ms)
      (λ _ _. ⊥)
      (λ _. ⊥)
      (collect node monitor (new_manager_collector "net" (pos 7)) variables 3 (some 100) [])
collect-IsExpected_example =
    collect-IsExpected node monitor "net" (pos 7) variables
      (λ d ls h. takes_same ls d.variable_labels h) 3 (some 100) []

abbrev boot : Boot
boot = record {
  in_cluster_config_answer = λ _. inr tt;
  new_client_answer = λ _. inr tt;
  register_answer = λ _. inr tt;
  listen_answer = λ _ _. external "closed";
}

manager_main-HasListened_example :
    Ends
      (λ _. HasListened)
      (λ code h'. (code ≡ 1) × (listened h' ≡ false))
      (λ h'. listened h' ≡ false)
      (manager_main node monitor boot variables [])
manager_main-HasListened_example = manager_main-HasListened node monitor boot variables

downgrade_status-HasDowngraded_example :
    Ends
      (λ _. HasDowngraded healthy "vlan-manager-x" "net" [])
      (λ _ _. ⊥)
      (λ _. ⊥)
      (downgrade_status healthy "vlan-manager-x" "net" [])
downgrade_status-HasDowngraded_example =
    downgrade_status-HasDowngraded healthy "vlan-manager-x" "net" []

annotation_predicate-apply_patch_example :
    let made = apply_patch annotated_pod office "worker" "Always" "10.0.0.2/24" [] "[]" in
    (annotation_predicate (Watches.created made)
      ≡ is_absent (lookup "job-name" annotated_pod.labels))
    × (annotation_predicate (Watches.deleted made)
        ≡ is_absent (lookup "job-name" annotated_pod.labels))
    × (annotation_predicate (Watches.generic made)
        ≡ is_absent (lookup "job-name" annotated_pod.labels))
    × (annotation_predicate (Watches.updated made) ≡ false)
annotation_predicate-apply_patch_example =
    annotation_predicate-apply_patch annotated_pod office "worker" "Always" "10.0.0.2/24" [] "[]"
      "net" refl refl

four_bytes : ip_to_byte_array "10.0.0.255" ≡ some (10 ∷ 0 ∷ 0 ∷ 255 ∷ [])
unfolding ip_to_byte_array take_digits
four_bytes = refl

too_large : ip_to_byte_array "10.0.0.256" ≡ none
unfolding ip_to_byte_array take_digits
too_large = refl
