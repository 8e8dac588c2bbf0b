-- ===== src/Cmd/Manager/Status.antt =====
-- downgradeStatus of cmd/manager/main.go.
pub mod Downgrade
use vlanman.Prelude.{String, some, ◌⊎◌, inl, inr}
use vlanman.Prelude.Maps.{insert, or_empty}
use vlanman.Prelude.Run.{return, call, attempt, ◌>>=◌}
use vlanman.Errors.{GoError}
use vlanman.Api.{VlanNetwork, VlanNetworkStatus, state_down}
use vlanman.Api.ShortState.{update_short_state}
use vlanman.Cluster.{Cluster, Operator, get_network, update_status}

pub with_down : String → VlanNetworkStatus → VlanNetworkStatus
with_down hostname status =
    update_short_state
      (record status { state = some (insert hostname state_down (or_empty status.state)) })

module _ (c : Cluster) (hostname : String) where
  abbrev after_get : GoError ⊎ VlanNetwork → Operator (Unit {0})
  after_get (inl _) = return tt
  after_get (inr connection) = do
    let down = record connection { status = with_down hostname connection.status }
    _ ← attempt (call (update_status down) (c.update_status_answer down))
    return tt

  -- Both errors are only logged.
  pub downgrade_status : String → Operator (Unit {0})
  downgrade_status owner_name = do
    found ← attempt (call (get_network owner_name) (c.get_network_answer owner_name))
    after_get found
