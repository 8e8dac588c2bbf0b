-- ===== src/PodWebhook/Success.antt =====
-- What the locked part of Default does on each of its ways out.
use vlanman.Prelude.{
  String, List, [], ◌∷◌, ◌≡◌, refl, inl, inr, none, some, All, contains, contains-middle, true,
  Option,
}
use vlanman.Prelude.Maps.{keys}
use vlanman.Prelude.Ends.{
  Ends, Ends-bind-ask, Ends-bind-wrap-call, Ends-return, Ends-fail, Ends-call, Ends-catch,
  Ends-bind,
}
use vlanman.Errors.{GoError, client_request, no_ip_in_pool_error, new_client_request_error}
use vlanman.Api.{VlanNetwork}
use vlanman.Cluster.{Cluster, Event, get_network, unlock, now, update_status}
use vlanman.Ipam.{pending_of, free_of, populate_status}
use vlanman.Ipam.Choice.{Picks, pick_address-Picks}
use vlanman.Ipam.Series.{reserved, IsFree, free_of-populate, pending_of-populate}
use vlanman.PodWebhook.{take_address, allocate}

module _ (c : Cluster) (name pool who : String) (h : List Event) where
  abbrev after_get : List Event
  after_get = get_network name ∷ h

  -- The network with the address reserved at the time that the clock answers.
  abbrev with_reserved : VlanNetwork → String → VlanNetwork
  with_reserved found ip = record found {
    status = reserved found.status pool ip (c.format_time (c.now_answer after_get));
  }

  -- A value: the address was free, the reservation was written and accepted, and the lease was given back.
  pub record Reserves (result : String × VlanNetwork) (h' : List Event) : Type 0 where
    pub found : VlanNetwork
    pub read : c.get_network_answer name h ≡ inr found
    pub free : IsFree found.status pool result.0
    pub accepted :
        c.update_status_answer (with_reserved found result.0) (now ∷ after_get) ≡ inr result.1
    pub events : h' ≡ unlock ∷ update_status (with_reserved found result.0) ∷ now ∷ after_get

  -- An error: the read failed, or every address of the pool is pending, or the write was refused.
  pub data Refuses : GoError → List Event → Type 0 where
    unread :
        (e : GoError)
        → c.get_network_answer name h ≡ inl e
        → Refuses (client_request "Get VlanNetwork" e) (unlock ∷ after_get)
    exhausted :
        (found : VlanNetwork)
        → c.get_network_answer name h ≡ inr found
        → All
            (λ ip. contains (keys (pending_of found.status pool)) ip ≡ true)
            (free_of found.status pool)
        → Refuses (no_ip_in_pool_error who "") (unlock ∷ after_get)
    unwritten :
        (found : VlanNetwork) (ip : String) (e : GoError)
        → c.get_network_answer name h ≡ inr found
        → c.update_status_answer (with_reserved found ip) (now ∷ after_get) ≡ inl e
        → Refuses
            (new_client_request_error "Update status in mutating webhook" e)
            (update_status (with_reserved found ip) ∷ now ∷ after_get)

  take_address_cases :
      (found : VlanNetwork)
      → c.get_network_answer name h ≡ inr found
      → (o : Option String) → Picks (pending_of found.status pool) (free_of found.status pool) o
      → Ends Reserves Refuses
          (λ _. ⊥)
          (take_address c pool who found (populate_status found.status (pool ∷ [])) o after_get)
  unfolding take_address
  take_address_cases found read none busy =
      Ends-bind-ask _ _ _ _ (Ends-fail _ _ (exhausted found read busy))
  take_address_cases found read (some ip) (skipped, rest, eq, _, fresh) = Ends-bind-ask _ _ _ _ (
      Ends-bind-wrap-call _ _ _ _ _ (λ e refused. unwritten found ip e read refused)
        (λ updated accepted. Ends-bind-ask _ _ _ _ (
          Ends-return _ _ (record {
            found = found;
            read = read;
            accepted = accepted;
            events = refl;
            free = (rw eq (contains-middle skipped rest ip), fresh);
          }))))

  -- Under the lease a request reads the network, and then either reserves a free address by a write
  -- that the server accepts, or fails because the read failed, because every address of the pool is
  -- pending, or because the write was refused; the events are told for each case. It never panics.
  pub allocate_cases : Ends Reserves Refuses (λ _. ⊥) (allocate c name pool who h)
  unfolding allocate
  allocate_cases =
      Ends-bind (λ found h'. (c.get_network_answer name h ≡ inr found) × (h' ≡ after_get)) _ _ h
        (Ends-catch (λ e h'. (c.get_network_answer name h ≡ inl e) × (h' ≡ after_get)) _ _ h
          (Ends-call _ _ h (λ e eq. (eq, refl)) (λ found eq. (eq, refl)))
          (λ e h' (eq, at). rw at (Ends-bind-ask _ _ _ _ (Ends-fail _ _ (unread e eq)))))
        (λ found h' (eq, at).
          rw (at, free_of-populate, pending_of-populate)
            (take_address_cases found eq _
              (pick_address-Picks (pending_of found.status pool) (free_of found.status pool))))
