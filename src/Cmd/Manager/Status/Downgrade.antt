-- ===== src/Cmd/Manager/Status/Downgrade.antt =====
-- What the operator sees of a downgrade.
use vlanman.Prelude.{
  String, List, [], ◌∷◌, ◌++◌, map, some, inl, inr, true, Bool, ◌==◌, ◌≡◌, refl, ◌∙◌, any, arith,
  eq_refl, if◌then◌else◌,
}
use vlanman.Prelude.Maps.{Dict, lookup, insert, or_empty, lookup-insert}
use vlanman.Prelude.Ends.{Ends, Ends-return, Ends-call, Ends-bind-attempt}
use vlanman.Errors.{GoError}
use vlanman.Api.{VlanNetwork, ConnectionState, state_down}
use vlanman.Api.ShortState.{update_short_state}
use vlanman.Cluster.{Cluster, Event, get_network, update_status}
use vlanman.Controller.Manager.{ManagerSet}
use vlanman.Controller.Diff.{VlanNetworkState, diff_states, states_of, state_of, zero_state}
use vlanman.Controller.Diff.Spawns.{spawns_at, has_down, diff_states-spawns_at}
use vlanman.Cmd.Manager.Status.{with_down, downgrade_status}

has_down-insert :
    (pod : String) (states : Dict ConnectionState)
    → has_down pod (insert pod state_down states) ≡ true
has_down-insert pod [] = ground (arith, eq_refl pod)
has_down-insert pod ((k, v) ∷ states) = ground (arith, eq_refl pod, has_down-insert pod states)

any-later {ℓ} :
    {A : Type ℓ} (p : A → Bool) (xs ys : List A) → any p ys ≡ true → any p (xs ++ ys) ≡ true
any-later p [] ys h = h
any-later p (x ∷ xs) ys h = ground (arith, any-later p xs ys h)

any-map_middle :
    (p : VlanNetworkState → Bool) (before after : List VlanNetwork) (net : VlanNetwork)
    → p (state_of net) ≡ true
    → any p (map state_of (before ++ (net ∷ after))) ≡ true
any-map_middle p [] after net h = ground arith
any-map_middle p (b ∷ before) after net h = ground (arith, any-map_middle p before after net h)

-- What stands in a network after the downgrade of a host: in its status, that the connection is down,
-- all others as before, and the same addresses; and all that is not its status as before.
pub record IsDowngraded (hostname : String) (found written : VlanNetwork) : Type 0 where
  pub rest : written ≡ record found { status = written.status }
  pub states :
      (k : String)
      → lookup k (or_empty written.status.state)
        ≡ (if hostname == k then some state_down else lookup k (or_empty found.status.state))
  pub addresses :
      (written.status.free_ips ≡ found.status.free_ips)
      × (written.status.pending_ips ≡ found.status.pending_ips)
  -- The operator, which finds the network among others, makes the interface of the host again.
  pub spawned :
      (desired current : List ManagerSet) (before after : List VlanNetwork)
      → any
          (spawns_at found.name hostname)
          (diff_states desired current (states_of (before ++ (written ∷ after))))
        ≡ true

abbrev downgraded : String → VlanNetwork → VlanNetwork
downgraded hostname found = record found { status = with_down hostname found.status }

with_down-IsDowngraded :
    (hostname : String) (found : VlanNetwork)
    → IsDowngraded hostname found (downgraded hostname found)
unfolding with_down update_short_state states_of
with_down-IsDowngraded hostname found = record {
  rest = refl;
  states = λ k. lookup-insert hostname k state_down (or_empty found.status.state);
  addresses = (refl, refl);
  spawned = λ desired current before after.
      diff_states-spawns_at desired current
        (states_of (before ++ (downgraded hostname found ∷ after))) found.name hostname
      ∙ any-later _ (map (λ _. zero_state) (before ++ (downgraded hostname found ∷ after))) _ (
          any-map_middle _ before after (downgraded hostname found) (
            ground
              (arith, eq_refl found.name, has_down-insert hostname (or_empty found.status.state))));
}

module _ (c : Cluster) (hostname owner_name : String) (h : List Event) where
  -- The network could not be read, and nothing was written; or it was, and one write was asked for,
  -- of the network downgraded.
  pub data HasDowngraded : List Event → Type 0 where
    unread :
        (e : GoError)
        → c.get_network_answer owner_name h ≡ inl e
        → HasDowngraded (get_network owner_name ∷ h)
    written :
        (found down : VlanNetwork)
        → c.get_network_answer owner_name h ≡ inr found
        → IsDowngraded hostname found down
        → HasDowngraded (update_status down ∷ get_network owner_name ∷ h)

  -- A downgrade reads the network and, where that succeeds, asks to write it once, with the connection
  -- of the host down and all else but the short state as it was; where the operator finds it so
  -- written, it makes the interface of the host again. It ends with no error, and never panics.
  pub downgrade_status-HasDowngraded :
      Ends (λ _. HasDowngraded) (λ _ _. ⊥) (λ _. ⊥) (downgrade_status c hostname owner_name h)
  unfolding downgrade_status
  downgrade_status-HasDowngraded =
      Ends-bind-attempt
        (λ found h'.
          (c.get_network_answer owner_name h ≡ inr found) × (h' ≡ get_network owner_name ∷ h))
        (λ e h'. (c.get_network_answer owner_name h ≡ inl e) × (h' ≡ get_network owner_name ∷ h)) _
        _ h (Ends-call _ _ h (λ e eq. (eq, refl)) (λ found eq. (eq, refl)))
        (λ e h' (eq, at). Ends-return _ _ (rw at (unread e eq)))
        (λ found h' (eq, at). rw at (
          Ends-bind-attempt (λ _ h'. HasDowngraded h') (λ _ h'. HasDowngraded h') _ _ _
            (Ends-call _ _ _ (λ _ _. written found _ eq (with_down-IsDowngraded hostname found))
              (λ _ _. written found _ eq (with_down-IsDowngraded hostname found)))
            (λ _ _ done. Ends-return _ _ done) (λ _ _ done. Ends-return _ _ done)))
