-- ===== src/Api/ShortState.antt =====
-- VlanNetworkStatus.UpdateShortState.
use vlanman.Prelude.{
  ℕ, suc, ◌+◌, ◌-◌, String, [], ◌∷◌, Bool, true, false, not, ◌==◌, ◌≡◌, refl, arith, pos,
  if◌then◌else◌, length,
}
use vlanman.Prelude.Maps.{Dict, or_empty}
use vlanman.Prelude.Text.{◌⧺◌}
use vlanman.Prelude.Decimal.{format_int}
use vlanman.Api.{VlanNetworkStatus, ConnectionState, state_up}

-- The loop over the connections, with `state` and `downCounter`.
unfoldable count_down : Dict ConnectionState → String × ℕ → String × ℕ
count_down [] acc = acc
count_down ((_, v) ∷ states) (state, down) =
    if not (v == state_up)
    then count_down states ("Unhealthy", down + 1)
    else count_down states (state, down)

-- `%s (%d/%d)`
abbrev summary : String → ℕ → ℕ → String
summary state up total =
    state ⧺ (" (" ⧺ (format_int (pos up) ⧺ ("/" ⧺ (format_int (pos total) ⧺ ")"))))

unfoldable pub update_short_state : VlanNetworkStatus → VlanNetworkStatus
unfolding count_down
update_short_state s =
    let counted = count_down (or_empty s.state) ("Healthy", 0) in
    record s {
      short_state =
          summary counted.0 (length (or_empty s.state) - counted.1) (length (or_empty s.state));
    }

abbrev up_among : Dict ConnectionState → ℕ
up_among [] = 0
up_among ((_, v) ∷ states) = let rest = up_among states in if v == state_up then suc rest else rest

abbrev health : Bool → String
health all_up = if all_up then "Healthy" else "Unhealthy"

abbrev all_up : Dict ConnectionState → Bool
all_up [] = true
all_up ((_, v) ∷ states) = if v == state_up then all_up states else false

counted_down :
    (states : Dict ConnectionState) (state : String) (down : ℕ)
    → (count_down states (state, down)).1 + up_among states ≡ length states + down
unfolding count_down
counted_down [] state down = omega arith
counted_down ((_, v) ∷ states) state down =
    ground (arith, counted_down states state down, counted_down states "Unhealthy" (down + 1))

stays_unhealthy :
    (states : Dict ConnectionState) (down : ℕ)
    → (count_down states ("Unhealthy", down)).0 ≡ "Unhealthy"
unfolding count_down
stays_unhealthy [] down = refl
stays_unhealthy ((_, v) ∷ states) down =
    ground (arith, stays_unhealthy states down, stays_unhealthy states (down + 1))

told_health :
    (states : Dict ConnectionState) (down : ℕ)
    → (count_down states ("Healthy", down)).0 ≡ health (all_up states)
unfolding count_down
told_health [] down = refl
told_health ((_, v) ∷ states) down =
    ground (arith, told_health states down, stays_unhealthy states (down + 1))

up_count :
    (states : Dict ConnectionState)
    → length states - (count_down states ("Healthy", 0)).1 ≡ up_among states
up_count states = omega (arith, counted_down states "Healthy" 0)

-- The short state tells "Healthy" exactly when every connection is up, the number of connections
-- that are up, and the number of all; nothing else of the status changes.
pub update_short_state-all_up :
    (s : VlanNetworkStatus)
    → update_short_state s ≡ record s {
      short_state =
          summary
            (health (all_up (or_empty s.state)))
            (up_among (or_empty s.state))
            (length (or_empty s.state));
    }
unfolding update_short_state
update_short_state-all_up s =
    rw (told_health (or_empty s.state) 0, up_count (or_empty s.state)) refl
