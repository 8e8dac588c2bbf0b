-- ===== src/Sharing/Listing.antt =====
-- The pods that an update lists, and the addresses that it sees them hold.
use vlanman.Prelude.{
  ℕ, zero, suc, String, List, [], ◌∷◌, Bool, true, false, ◌≡◌, refl, ◌==◌, any, All, map, contains,
  Distinct, arith, eq_iff, eq_refl,
}
use vlanman.Prelude.Text.{address_of}
use vlanman.Kube.{Pod}
use vlanman.Controller.Vlan.{holds}
use vlanman.Sharing.{Claim, running, create_at, remove_at}

-- The address of a claim, without its subnet.
abbrev pub place : Claim → String
place c = address_of c.ip

-- The pod of a claim holds the address of the claim, and no other.
abbrev pub Reads : Claim → Type 0
Reads c = (a : String) → holds c.pod a ≡ (a == place c)

abbrev pub is_held : List Pod → String → Bool
is_held pods a = any (λ pod. holds pod a) pods

pub All-zip {ℓ κ ι μ} :
    {A : Type ℓ} {P : A → Type κ} {Q : A → Type ι} {R : A → Type μ}
    → ((x : A) → P x → Q x → R x)
    → (xs : List A) → All P xs
    → All Q xs
    → All R xs
All-zip f [] ps qs = tt
All-zip f (x ∷ xs) (p, ps) (q, qs) = (f x p q, All-zip f xs ps qs)

pub All-map {ℓ κ ι} :
    {A : Type ℓ} {P : A → Type κ} {Q : A → Type ι}
    → ((x : A) → P x → Q x)
    → (xs : List A) → All P xs
    → All Q xs
All-map f [] ps = tt
All-map f (x ∷ xs) (p, ps) = (f x p, All-map f xs ps)

pub unheld :
    (claims : List Claim) (a : String)
    → All Reads claims
    → contains (map place claims) a ≡ false
    → is_held (running claims) a ≡ false
unfolding running
unheld [] a reads h = refl
unheld (c ∷ claims) a (r, reads) h =
    ground (arith, r a, eq_iff a (place c), eq_iff (place c) a, unheld claims a reads)

apart :
    (claims : List Claim) (a : String)
    → contains (map place claims) a ≡ false
    → All (λ c. (place c == a) ≡ false) claims
apart [] a h = tt
apart (c ∷ claims) a h = (ground arith, apart claims a (ground arith))

-- Of claims with different addresses, the running pods hold exactly those of the pods created.
pub is_held-running :
    (claims : List Claim)
    → All Reads claims
    → Distinct (map place claims)
    → All (λ c. is_held (running claims) (place c) ≡ c.created) claims
unfolding running
is_held-running [] reads d = tt
is_held-running (c ∷ claims) (r, reads) (fresh, d) = (
  ground (arith, r (place c), eq_refl (place c), unheld claims (place c) reads fresh),
  All-zip later claims (apart claims (place c) fresh) (is_held-running claims reads d),
)
  where
    later :
        (e : Claim)
        → (place e == place c) ≡ false
        → is_held (running claims) (place e) ≡ e.created
        → is_held (running (c ∷ claims)) (place e) ≡ e.created
    later e other same = ground (arith, r (place e))

-- A creation changes no address, and a pod that goes away leaves the others as they were.
pub place-create_at :
    (i : ℕ) (claims : List Claim) → map place (create_at i claims) ≡ map place claims
unfolding create_at
place-create_at i [] = refl
place-create_at zero (c ∷ claims) = refl
place-create_at (suc i) (c ∷ claims) = rw (place-create_at i claims) refl

contains-remove_at :
    (i : ℕ) (claims : List Claim) (a : String)
    → contains (map place claims) a ≡ false
    → contains (map place (remove_at i claims)) a ≡ false
unfolding remove_at
contains-remove_at i [] a h = h
contains-remove_at zero (c ∷ claims) a h = ground arith
contains-remove_at (suc i) (c ∷ claims) a h = ground (arith, contains-remove_at i claims a)

pub Distinct-remove_at :
    (i : ℕ) (claims : List Claim)
    → Distinct (map place claims)
    → Distinct (map place (remove_at i claims))
unfolding remove_at
Distinct-remove_at i [] d = d
Distinct-remove_at zero (c ∷ claims) (fresh, d) = d
Distinct-remove_at (suc i) (c ∷ claims) (fresh, d) =
    (contains-remove_at i claims (place c) fresh, Distinct-remove_at i claims d)

pub All-create_at :
    {P : Claim → Type 0}
    → ((c : Claim) → P c → P (record c { created = true }))
    → (i : ℕ) (claims : List Claim) → All P claims
    → All P (create_at i claims)
unfolding create_at
All-create_at f i [] h = h
All-create_at f zero (c ∷ claims) (p, ps) = (f c p, ps)
All-create_at f (suc i) (c ∷ claims) (p, ps) = (p, All-create_at f i claims ps)

pub All-remove_at :
    (P : Claim → Type 0) (i : ℕ) (claims : List Claim) → All P claims → All P (remove_at i claims)
unfolding remove_at
All-remove_at P i [] h = h
All-remove_at P zero (c ∷ claims) (p, ps) = ps
All-remove_at P (suc i) (c ∷ claims) (p, ps) = (p, All-remove_at P i claims ps)
