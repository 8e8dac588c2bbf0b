-- ===== src/Sharing.antt =====
-- The webhook and the controller together, on the addresses of one network: the requests of
-- Default in internal/webhook/corev1/webhook.go, between the updates of
-- updateVlanNetworkStatus in internal/controller/vlanman_controller.go, in any order, while pods are
-- created and go away. The server refuses the write of a status that is not the one that was read, so
-- a request reads and writes in one step, and an update is of use only if no request was
-- served after it read the network. It lists the worker pods after that.
pub mod Listing
pub mod Invariant
pub mod Requests
pub mod Updates
pub mod Safety
pub mod Reclaim
use vlanman.Prelude.{
  ℕ, zero, suc, ◌+◌, String, List, [], ◌∷◌, Option, none, some, Bool, true, false, ◌≡◌, ◌||◌, any,
  All, leb, if◌then◌else◌,
}
use vlanman.Prelude.Maps.{Dict}
use vlanman.Prelude.Text.{address_of}
use vlanman.Kube.{Pod}
use vlanman.Api.{VlanNetwork, VlanNetworkStatus}
use vlanman.Cluster.{Moment, at_pending, Envs}
use vlanman.Ipam.{populate_status, pick_address, free_of, pending_of, reserve}
use vlanman.PodWebhook.Patch.{apply_patch}
use vlanman.PodWebhook.ReadBack.{sets_address}
use vlanman.Controller.Vlan.{holds}
use vlanman.Controller.Status.Refresh.{refresh, timeout}

-- A pod that was given an address, and the stamp of its request; `created` from when it is listed
-- until it is gone.
pub record Claim : Type 0 where
  pub pool : String
  pub ip : String
  pub stamp : String
  pub pod : Pod
  pub created : Bool

-- `listed` are the worker pods of an update that was not written yet, if its write can be accepted.
pub record System : Type 0 where
  pub status : VlanNetworkStatus
  pub claims : List Claim
  pub listed : Option (List Pod)

pub data Event : Type 0 where
  -- A request: its pool and stamp, the pod, and the endpoints and routes that it is patched with.
  admits : String → String → Pod → Dict String → String → Event
  -- The pod of a claim is created; it goes away, or was never created.
  creates ends : ℕ → Event
  -- An update reads the network and lists the pods; it writes the status, with the names of the
  -- manager pods and the time at each step.
  lists : Event
  updates : List String → (Moment → ℕ) → Event

unfoldable pub running : List Claim → List Pod
running [] = []
running (c ∷ claims) = let rest = running claims in if c.created then c.pod ∷ rest else rest

unfoldable pub create_at : ℕ → List Claim → List Claim
create_at i [] = []
create_at zero (c ∷ claims) = record c { created = true } ∷ claims
create_at (suc i) (c ∷ claims) = c ∷ create_at i claims

unfoldable pub remove_at : ℕ → List Claim → List Claim
remove_at i [] = []
remove_at zero (c ∷ claims) = claims
remove_at (suc i) (c ∷ claims) = c ∷ remove_at i claims

-- A request for which an address was picked, or none.
abbrev pub admit :
    Envs
    → VlanNetwork
    → System
    → String
    → String
    → Pod
    → Dict String
    → String
    → Option String
    → System
admit env net s pool stamp pod endpoints routes none = s
admit env net s pool stamp pod endpoints routes (some ip) = record {
  status = reserve (populate_status s.status (pool ∷ [])) pool ip stamp;
  claims =
      record {
        pool = pool;
        ip = ip;
        stamp = stamp;
        pod =
            apply_patch pod net env.worker_init_image env.worker_init_pull_policy ip endpoints
              routes;
        created = false;
      }
      ∷ s.claims;
  listed = none;
}

abbrev pub write :
    (String → Option ℕ)
    → VlanNetwork
    → System
    → List String
    → (Moment → ℕ)
    → Option (List Pod)
    → System
write parse net s managers clock none = s
write parse net s managers clock (some pods) = record s {
  status = (refresh parse clock managers pods (record net { status = s.status })).0;
  listed = none;
}

module _ (parse : String → Option ℕ) where
  -- The pod of a claim is among those listed, or the timeout of its pending address has not passed.
  abbrev pub in_time : (Moment → ℕ) → List Pod → Claim → Bool
  in_time clock pods c = any (λ pod. holds pod (address_of c.ip)) pods || (elim (parse c.stamp) [
    | none ↦ false
    | some t ↦ leb (clock (at_pending c.pool c.ip)) (t + timeout)
  ])

  abbrev pub AreInTime : (Moment → ℕ) → List Claim → Option (List Pod) → Type 0
  AreInTime clock claims none = Unit
  AreInTime clock claims (some pods) = All (λ c. in_time clock pods c ≡ true) claims

  -- No pod brings an init container that sets the variables of the webhook's own, and no pod that
  -- was given an address is still to be created when the timeout of the address has passed.
  abbrev pub IsExpected : System → Event → Type 0
  IsExpected s (admits pool stamp pod endpoints routes) =
      any sets_address pod.init_containers ≡ false
  IsExpected s (updates managers clock) = AreInTime clock s.claims s.listed
  IsExpected s _ = Unit

module _ (env : Envs) (net : VlanNetwork) (parse : String → Option ℕ) where
  unfoldable pub step : System → Event → System
  unfolding running create_at remove_at
  step s (admits pool stamp pod endpoints routes) =
      let status = populate_status s.status (pool ∷ []) in
      admit env net s pool stamp pod endpoints routes
        (pick_address (pending_of status pool) (free_of status pool))
  step s (creates i) = record s { claims = create_at i s.claims }
  step s (ends i) = record s { claims = remove_at i s.claims }
  step s lists = record s { listed = some (running s.claims) }
  step s (updates managers clock) = write parse net s managers clock s.listed

  unfoldable pub run : System → List Event → System
  unfolding step
  run s [] = s
  run s (e ∷ events) = run (step s e) events

  abbrev pub AreExpected : System → List Event → Type 0
  AreExpected s [] = Unit
  AreExpected s (e ∷ events) = IsExpected parse s e × AreExpected (step s e) events
