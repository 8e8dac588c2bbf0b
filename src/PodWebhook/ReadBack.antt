-- ===== src/PodWebhook/ReadBack.antt =====
-- The controller reads from a pod what the webhook wrote into it.
use vlanman.Prelude.{
  String, List, [], ◌∷◌, Bool, false, not, ◌||◌, ◌==◌, ◌≡◌, refl, ap, any, arith, inl, inr,
  Bool-cases,
}
use vlanman.Prelude.Maps.{Dict}
use vlanman.Prelude.Text.{Parts, address_of, cut-before-slash, cut-before}
use vlanman.Kube.{Pod, Container, EnvVar}
use vlanman.Api.{VlanNetwork}
use vlanman.PodWebhook.Patch.{apply_patch, init_container, subnet_of}
use vlanman.Controller.Vlan.{Found, scan_env, scan_containers, extract_vlan, full_ip, holds}

-- A variable that extractVlan reads.
abbrev pub is_read : EnvVar → Bool
is_read e = e.name == "MACVLAN_IP" || e.name == "MACVLAN_SUBNET"

abbrev pub sets_address : Container → Bool
sets_address container = any is_read container.env

scan_env-unread :
    (found : Found) (env : List EnvVar) → any is_read env ≡ false → scan_env found env ≡ found
unfolding scan_env
scan_env-unread found [] h = refl
scan_env-unread found (e ∷ env) h = ground (arith, scan_env-unread found env)

scan_containers-unread :
    (found : Found) (containers : List Container)
    → any sets_address containers ≡ false
    → scan_containers found containers ≡ found
unfolding scan_containers
scan_containers-unread found [] h = refl
scan_containers-unread found (container ∷ rest) h =
    ground (arith, scan_env-unread found container.env, scan_containers-unread found rest)

-- What is before the first "/" is the address, with a subnet after it or without.
address_of-full_ip :
    (ip subnet : String)
    → address_of (full_ip (record { ip = address_of ip; subnet = subnet })) ≡ address_of ip
unfolding address_of
address_of-full_ip ip subnet = elim (Bool-cases (subnet == "")) [
  | inl empty ↦ rw empty (ap (λ (p : Parts). p.before) (cut-before ip))
  | inr given ↦ rw given (ap (λ (p : Parts). p.before) (cut-before-slash ip subnet))
]

scan_env-init_container :
    (network : VlanNetwork) (image policy ip : String) (endpoints : Dict String) (routes : String)
    → scan_env
        (record { ip = ""; subnet = "" })
        (init_container network image policy ip endpoints routes).env
      ≡ record { ip = address_of ip; subnet = subnet_of ip }
unfolding init_container scan_env address_of
scan_env-init_container network image policy ip endpoints routes = refl

extract_vlan-apply_patch :
    (pod : Pod) (network : VlanNetwork) (image policy ip : String) (endpoints : Dict String)
    (routes : String)
    → any sets_address pod.init_containers ≡ false
    → extract_vlan (apply_patch pod network image policy ip endpoints routes)
      ≡ (full_ip (record { ip = address_of ip; subnet = subnet_of ip }), not (address_of ip == ""))
unfolding apply_patch extract_vlan address_of
extract_vlan-apply_patch pod network image policy ip endpoints routes own =
    ap (λ (f : Found). (full_ip f, not (f.ip == "")))
      (scan_containers-unread (record { ip = address_of ip; subnet = subnet_of ip })
        pod.init_containers own)

-- For the controller the pod holds the address that the webhook gave it, and no other, if none of
-- its own init containers sets a variable that the controller reads and there is an address
-- before the "/".
pub holds-apply_patch :
    (pod : Pod) (network : VlanNetwork) (image policy ip : String) (endpoints : Dict String)
    (routes address : String)
    → any sets_address pod.init_containers ≡ false
    → (address_of ip == "") ≡ false
    → holds (apply_patch pod network image policy ip endpoints routes) address
      ≡ (address == address_of ip)
holds-apply_patch pod network image policy ip endpoints routes address own present =
    rw
      (
        extract_vlan-apply_patch pod network image policy ip endpoints routes own,
        present,
        address_of-full_ip ip (subnet_of ip),
      )
      refl
