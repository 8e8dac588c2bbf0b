-- ===== src/Cmd/Manager.antt =====
-- cmd/manager: the daemon on each node, from its environment on.
pub mod Watch
pub mod Macvlan
pub mod Leader
pub mod Status
pub mod Collector
pub mod Main
pub mod Pid
pub mod FromOperator
use vlanman.Prelude.{
  ℤ, pos, negsuc, ◌^◌, ◌-◌, String, List, [], ◌∷◌, ◌⊎◌, inl, inr, Bool, true, false, not, ◌||◌,
  ◌==◌, int_le, if◌then◌else◌,
}
use vlanman.Prelude.Decimal.{ParsedInt, parsed, bad_syntax, out_of_range, parse_int}
use vlanman.Prelude.Run.{return, ◌>>=◌, ◌>>◌}
use vlanman.Api.{Gateway}
use vlanman.Host.{Host, HostAnswer, Program, Environment, exit, or_exit, parsed_or_exit}

-- Envs
pub record ManagerEnvs : Type 0 where
  pub owner_net_name : String
  pub namespace : String
  pub vlan_id : ℤ
  pub lock_name : String
  pub gateways : List Gateway

-- `if s == "" { …; os.Exit(1) }`
abbrev required : String → Program String
required s = if s == "" then exit 1 else return s

-- The bounds of int.
abbrev checked_int : ℤ → Program ℤ
checked_int i =
    if not (int_le i (pos (2 ^ 63 - 1))) || not (int_le (negsuc (2 ^ 63 - 1)) i)
    then exit 1
    else return i

abbrev gateways_of : Host → String → HostAnswer (List Gateway)
gateways_of host text = if text == "" then inr [] else host.unmarshal_gateways text

-- getEnvs
pub get_envs : Host → Environment → Program ManagerEnvs
get_envs host env = do
  owner ← required (env "OWNER_NETWORK")
  text ← required (env "VLAN_ID")
  vlan_id64 ← parsed_or_exit (parse_int 64 text)
  vlan_id ← checked_int vlan_id64
  gateways ← or_exit (gateways_of host (env "GATEWAYS"))
  return (record {
    owner_net_name = owner;
    namespace = env "NAMESPACE";
    vlan_id = vlan_id;
    lock_name = env "LOCK_NAME";
    gateways = gateways;
  })
