-- ===== src/Tests/SharingExamples.antt =====
-- Requests, pods and updates on the network of the fixtures.
use vlanman.Prelude.{
  ℕ, String, List, [], ◌∷◌, Option, none, some, true, false, ◌≡◌, ◌≢◌, refl, sym, ap, ◌∙◌, map, All,
  Distinct, contains, arith, eq_iff, ◌⊎◌, inl, inr, Bool-cases, ◌==◌,
}
use vlanman.Prelude.Text.{address_of}
use vlanman.Prelude.Ends.{Ends}
use vlanman.Cluster.{Cluster, Moment, a_pod}
use vlanman.Ipam.{populate_status, pick_address, free_of, pending_of, reserve}
use vlanman.Ipam.Series.{IsFree}
use vlanman.PodWebhook.{default}
use vlanman.PodWebhook.Patch.{apply_patch}
use vlanman.Controller.Vlan.{extract_vlan}
use vlanman.Controller.Status.{update_network_status}
use vlanman.Controller.Status.Refresh.{
  refresh, drop_stale, set_free, set_pending, drop_taken, drop_settled, is_settled, is_taken,
  pod_ips,
}
use vlanman.Controller.Status.Free.{pool_addresses}
use vlanman.Sharing
use vlanman.Sharing.{
  Claim, System, admits, creates, ends, lists, updates, step, run, AreExpected, running, create_at,
  remove_at,
}
use vlanman.Sharing.Invariant.{HasDistinctAddresses}
use vlanman.Sharing.Safety.{new_system, read_address, IsServed, run-Distinct}
use vlanman.Sharing.Reclaim.{run-reclaims}
use vlanman.PodWebhook.Claims.{IsClaim, default-IsClaim}
use vlanman.Controller.Status.Shared.{IsUpdated, update_network_status-IsUpdated}
use vlanman.Tests.Fixtures.{
  worker_pod, office, office_status, plain_pod, annotated_pod, env, healthy,
}

-- Every stamp is that of the first second.
abbrev parse : String → Option ℕ
parse stamp = some 1000000000

abbrev at : ℕ → Moment → ℕ
at time _ = time

office_addresses :
    (p : String) (a : String)
    → contains (pool_addresses office p) a ≡ true
    → (p ≡ "office") × ((a ≡ "10.0.0.1/24") ⊎ (a ≡ "10.0.0.2/24") ⊎ (a ≡ "10.0.0.3/24"))
unfolding pool_addresses
office_addresses p a h = elim (Bool-cases ("office" == p)) [
  | inl same ↦ ground (
    arith,
    eq_iff "office" p,
    eq_iff "10.0.0.1/24" a,
    eq_iff "10.0.0.2/24" a,
    eq_iff "10.0.0.3/24" a,
  )
  | inr other ↦ ground arith
]

abbrev Listed : String → Type 0
Listed a = (a ≡ "10.0.0.1/24") ⊎ (a ≡ "10.0.0.2/24") ⊎ (a ≡ "10.0.0.3/24")

clash :
    (x y : String) {a b : String}
    → a ≡ x
    → b ≡ y
    → (address_of x == address_of y) ≡ false
    → address_of a ≡ address_of b
    → a ≡ b
clash x y p q other e =
    cc ((eq_iff (address_of x) (address_of y)).1 (sym (ap address_of p) ∙ e ∙ ap address_of q))

one_place : (a b : String) → Listed a → Listed b → address_of a ≡ address_of b → a ≡ b
unfolding address_of
one_place a b (inl p) (inl q) e = p ∙ sym q
one_place a b (inl p) (inr (inl q)) e = clash "10.0.0.1/24" "10.0.0.2/24" p q refl e
one_place a b (inl p) (inr (inr q)) e = clash "10.0.0.1/24" "10.0.0.3/24" p q refl e
one_place a b (inr (inl p)) (inl q) e = clash "10.0.0.2/24" "10.0.0.1/24" p q refl e
one_place a b (inr (inl p)) (inr (inl q)) e = p ∙ sym q
one_place a b (inr (inl p)) (inr (inr q)) e = clash "10.0.0.2/24" "10.0.0.3/24" p q refl e
one_place a b (inr (inr p)) (inl q) e = clash "10.0.0.3/24" "10.0.0.1/24" p q refl e
one_place a b (inr (inr p)) (inr (inl q)) e = clash "10.0.0.3/24" "10.0.0.2/24" p q refl e
one_place a b (inr (inr p)) (inr (inr q)) e = p ∙ sym q

some_place : (a : String) → Listed a → (address_of a == "") ≡ false
unfolding address_of
some_place a (inl p) = rw p refl
some_place a (inr (inl p)) = rw p refl
some_place a (inr (inr p)) = rw p refl

office-HasDistinctAddresses : HasDistinctAddresses office
office-HasDistinctAddresses = record {
  present = λ pool ip h. some_place ip (office_addresses pool ip h).1;
  distinct = λ p q a b h k e. (
    (office_addresses p a h).0 ∙ sym (office_addresses q b k).0,
    one_place a b (office_addresses p a h).1 (office_addresses q b k).1 e,
  );
}

abbrev requests : List Sharing.Event
requests =
    lists
    ∷ updates [] (at 1000000000)
    ∷ admits "office" "t1" plain_pod [] "[]"
    ∷ admits "office" "t2" plain_pod [] "[]"
    ∷ creates 0
    ∷ lists
    ∷ updates [] (at 2000000000)
    ∷ admits "office" "t3" plain_pod [] "[]"
    ∷ []

places :
    map (λ (c : Claim). c.ip) (run env office parse new_system requests).claims
    ≡ "10.0.0.3/24" ∷ "10.0.0.2/24" ∷ "10.0.0.1/24" ∷ []
unfolding run pick_address free_of pending_of populate_status reserve refresh drop_stale set_free
    set_pending drop_taken drop_settled is_settled is_taken pod_ips extract_vlan address_of
    apply_patch running create_at remove_at
places = refl

expected : AreExpected env office parse new_system requests
unfolding run step pick_address free_of pending_of populate_status reserve refresh drop_stale
    set_free set_pending drop_taken drop_settled is_settled is_taken pod_ips extract_vlan address_of
    apply_patch running create_at remove_at
expected = (tt, (tt, (refl, (refl, (tt, (tt, ((refl, (refl, tt)), (refl, tt))))))))

run-Distinct_example :
    Distinct
      (map (λ (c : Claim). read_address c.pod) (run env office parse new_system requests).claims)
    × All (IsServed office) (run env office parse new_system requests).claims
run-Distinct_example = run-Distinct env office parse requests office-HasDistinctAddresses expected

-- Where a pod is created after its timeout, its address was given out again.
late :
    map
      (λ (c : Claim). c.ip)
      (run env office parse new_system (
        lists
        ∷ updates [] (at 1000000000)
        ∷ admits "office" "t1" plain_pod [] "[]"
        ∷ lists
        ∷ updates [] (at 1000000000000)
        ∷ admits "office" "t2" plain_pod [] "[]"
        ∷ [])).claims
    ≡ "10.0.0.1/24" ∷ "10.0.0.1/24" ∷ []
unfolding run step pick_address free_of pending_of populate_status reserve refresh drop_stale
    set_free set_pending drop_taken drop_settled is_settled is_taken pod_ips extract_vlan address_of
    apply_patch running create_at remove_at
late = refl

abbrev ended : List Sharing.Event
ended =
    lists
    ∷ updates [] (at 1000000000)
    ∷ admits "office" "t1" plain_pod [] "[]"
    ∷ creates 0
    ∷ ends 0
    ∷ []

ended_expected : AreExpected env office parse new_system ended
unfolding run step pick_address free_of pending_of populate_status reserve refresh drop_stale
    set_free set_pending drop_taken drop_settled is_settled is_taken pod_ips extract_vlan address_of
    apply_patch running create_at remove_at
ended_expected = (tt, (tt, (refl, (tt, (tt, tt)))))

run-reclaims_example :
    let after =
      (step env office parse
        (step env office parse (run env office parse new_system ended) lists)
        (updates [] (at 1000000000000))).status in
    IsFree after "office" "10.0.0.1/24"
    × (pick_address (pending_of after "office") (free_of after "office") ≢ none)
unfolding pool_addresses run step pick_address free_of pending_of populate_status reserve refresh
    drop_stale set_free set_pending drop_taken drop_settled is_settled is_taken pod_ips extract_vlan
    address_of apply_patch running create_at remove_at
run-reclaims_example =
    run-reclaims env office parse ended "office" "10.0.0.1/24" [] (at 1000000000000)
      office-HasDistinctAddresses ended_expected refl refl refl refl ((λ t e. ground arith), tt)

abbrev before_request : System
before_request = record new_system { status = office_status }

abbrev serving : Cluster
serving = record healthy {
  get_network_answer = λ _ _. inr office;
  update_status_answer = λ n _. inr n;
}

default-IsClaim_example :
    Ends
      (IsClaim serving env office before_request annotated_pod "net" "office")
      (λ _ _. Unit {0})
      (λ _. Unit {0})
      (default serving env (a_pod annotated_pod) [])
default-IsClaim_example =
    default-IsClaim serving env office before_request annotated_pod "net" "office" (λ h. refl)
      (λ n h. refl) [] refl refl

update_network_status-IsUpdated_example :
    Ends
      (IsUpdated
        (record healthy { list_pods_answer = λ _ _. inr (worker_pod ∷ []) })
        env
        office
        before_request
        (worker_pod ∷ [])
        [])
      (λ _ _. Unit {0})
      (λ _. ⊥)
      (update_network_status
        (record healthy { list_pods_answer = λ _ _. inr (worker_pod ∷ []) })
        env
        (record office { status = before_request.status })
        [])
update_network_status-IsUpdated_example =
    update_network_status-IsUpdated
      (record healthy { list_pods_answer = λ _ _. inr (worker_pod ∷ []) }) env office before_request
      (worker_pod ∷ []) [] (λ h. refl)
