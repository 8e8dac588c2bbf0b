-- ===== src/Host.antt =====
-- What the programs on a node ask of it: netlink, the directory of the network devices, the commands
-- and the requests that they send. They run as `Run` does, and an error is the code of os.Exit.
pub mod Exits
use vlanman.Prelude.{
  ℕ, ℤ, pos, negsuc, String, List, [], ◌∷◌, Option, none, some, ◌⊎◌, inl, inr, Bool, true, false,
  leb, eqb, ◌&&◌, ◌||◌, ◌==◌, if◌then◌else◌,
}
use vlanman.Prelude.Decimal.{ParsedInt, parsed, bad_syntax, out_of_range}
use vlanman.Prelude.Run.{Run, Result, ok, err, panic, fail, return}
use vlanman.Errors.{GoError}
use vlanman.Kube.{EnvVar, Container}
use vlanman.Api.{Route, Gateway}
use vlanman.Cluster.{Response}
use Prim.Native.Char.{Char, code}
use Prim.Native.String

-- net.IP by its canonical text; a nil IP is `none`.
pub record Ip : Type 0 where
  pub text : String

-- net.IPMask, all of whose ones come first.
pub record Mask : Type 0 where
  pub ones : ℕ
  pub bits : ℕ

pub record IpNet : Type 0 where
  pub ip : Option Ip
  pub mask : Option Mask

-- net.CIDRMask
abbrev pub cidr_mask : ℤ → ℕ → Option Mask
cidr_mask (pos n) bits = if leb n bits then some (record { ones = n; bits = bits }) else none
cidr_mask (negsuc n) bits = none

-- The attributes of a netlink.Link that the programs read and write.
pub record Attrs : Type 0 where
  pub name : String
  pub index : ℤ
  pub parent_index : ℤ

-- netlink.Link, by its Go type.
pub data Link : Type 0 where
  vlan_link : Attrs → ℤ → Link
  -- In bridge mode.
  macvlan_link : Attrs → Link
  other_link : String → Attrs → Link

abbrev pub attrs_of : Link → Attrs
attrs_of (vlan_link attrs _) = attrs
attrs_of (macvlan_link attrs) = attrs
attrs_of (other_link _ attrs) = attrs

-- A link of the program once it was added.
abbrev pub with_index : ℤ → Link → Link
with_index i (vlan_link attrs id) = vlan_link (record attrs { index = i }) id
with_index i (macvlan_link attrs) = macvlan_link (record attrs { index = i })
with_index i (other_link kind attrs) = other_link kind (record attrs { index = i })

-- netlink.NewLinkAttrs, with the name and the parent that the programs set.
abbrev pub new_attrs : String → ℤ → Attrs
new_attrs name parent = record { name = name; index = pos 0; parent_index = parent }

-- netlink.Route: the fields that are set.
pub record KernelRoute : Type 0 where
  pub link_index : ℤ
  -- `none` is nil.
  pub dst : Option IpNet
  pub gw : Option Ip
  pub src : Option Ip
  pub scope_link : Bool

pub data HostEvent : Type 0 where
  pause : HostEvent
  link_list : HostEvent
  route_list : Link → HostEvent
  link_by_name : String → HostEvent
  link_add link_del link_set_up : Link → HostEvent
  link_set_ns_pid : Link → ℤ → HostEvent
  addr_add addr_del : Link → IpNet → HostEvent
  route_add : KernelRoute → HostEvent
  -- The program and its arguments; its output is read.
  command : List String → HostEvent
  http_post : String → String → HostEvent
  read_dir : String → HostEvent
  -- procfs.NewDefaultFS and NetDev.
  proc_fs net_dev : HostEvent
  -- What the daemon does as it starts: the client, the goroutine of interfaceSetup, MustRegister, and
  -- ListenAndServe at an address.
  in_cluster_config new_client interface_setup_begun register_collector : HostEvent
  listen : String → HostEvent
  -- The call of the function that VlanWatcher.Watch is given.
  downgrade : HostEvent

abbrev pub HostAnswer : Type 0 → Type 0
HostAnswer A = GoError ⊎ A

-- The error of a command: *exec.ExitError with what the command wrote to its standard error, or any other.
pub data CommandError : Type 0 where
  exit_error : String → CommandError
  no_exit : GoError → CommandError

pub record Host : Type 0 where
  pub link_list_answer : List HostEvent → HostAnswer (List Link)
  pub route_list_answer : Link → List HostEvent → HostAnswer (List KernelRoute)
  pub link_by_name_answer : String → List HostEvent → HostAnswer Link
  pub link_add_answer : Link → List HostEvent → HostAnswer (Unit {0})
  -- The index of the new link, which netlink.LinkAdd writes into its attributes.
  pub given_index : Link → List HostEvent → ℤ
  pub link_del_answer : Link → List HostEvent → HostAnswer (Unit {0})
  pub link_set_up_answer : Link → List HostEvent → HostAnswer (Unit {0})
  pub link_set_ns_pid_answer : Link → ℤ → List HostEvent → HostAnswer (Unit {0})
  pub addr_add_answer : Link → IpNet → List HostEvent → HostAnswer (Unit {0})
  pub addr_del_answer : Link → IpNet → List HostEvent → HostAnswer (Unit {0})
  pub route_add_answer : KernelRoute → List HostEvent → HostAnswer (Unit {0})
  pub command_answer : List String → List HostEvent → CommandError ⊎ String
  -- `none` is a nil response.
  pub http_post_answer : String → String → List HostEvent → HostAnswer (Option Response)
  -- The names of the entries.
  pub read_dir_answer : String → List HostEvent → HostAnswer (List String)
  -- err.Error()
  pub error_text : GoError → String
  -- Package net.
  pub parse_ip : String → Option Ip
  pub parse_cidr : String → HostAnswer (Option Ip × IpNet)
  pub net_text : IpNet → String
  -- encoding/json.
  pub marshal_ns_id : ℤ → HostAnswer String
  pub unmarshal_ns_id : String → HostAnswer ℤ
  pub unmarshal_vlan_id : String → HostAnswer ℤ
  pub unmarshal_routes : String → HostAnswer (List Route)
  pub unmarshal_gateways : String → HostAnswer (List Gateway)

-- The code that a program exits with is its error.
abbrev pub Program : Type 0 → Type 0
Program = Run HostEvent ℕ

-- os.Exit
abbrev pub exit : {A : Type 0} → ℕ → Program A
exit code = fail code

-- `if err != nil { …; os.Exit(1) }`
abbrev pub or_exit : {E A : Type 0} → E ⊎ A → Program A
or_exit (inl _) = exit 1
or_exit (inr a) = return a

-- `if err != nil { …; os.Exit(1) }` after a ParseInt.
abbrev pub parsed_or_exit : ParsedInt → Program ℤ
parsed_or_exit (parsed i) = return i
parsed_or_exit bad_syntax = exit 1
parsed_or_exit (out_of_range _) = exit 1

-- The environment of a process: os.Getenv.
abbrev pub Environment : Type 0
Environment = String → String

unfoldable pub getenv : List EnvVar → Environment
getenv [] name = ""
getenv (v ∷ env) name = if v.name == name then v.value else getenv env name

abbrev pub first_env : List Container → Environment
first_env [] = getenv []
first_env (container ∷ _) = getenv container.env

unfoldable pub starts_with : String → String → Bool
starts_with s String.[] = true
starts_with String.[] (String.◌∷◌ d p) = false
starts_with (String.◌∷◌ c s) (String.◌∷◌ d p) = eqb (code c) (code d) && starts_with s p

-- strings.Contains
unfoldable pub contains_text : String → String → Bool
contains_text String.[] part = starts_with "" part
contains_text (String.◌∷◌ c s) part = starts_with (String.◌∷◌ c s) part || contains_text s part

-- isAlreadyExists of the worker and isFileExistsErr of the manager.
unfoldable pub file_exists : Host → GoError → Bool
file_exists host e = contains_text (host.error_text e) "file exists"

-- unicode.IsSpace
abbrev is_space : Char → Bool
is_space c =
    (leb 9 (code c) && leb (code c) 13)
    || eqb (code c) 32
    || eqb (code c) 133
    || eqb (code c) 160
    || eqb (code c) 5760
    || (leb 8192 (code c) && leb (code c) 8202)
    || eqb (code c) 8232
    || eqb (code c) 8233
    || eqb (code c) 8239
    || eqb (code c) 8287
    || eqb (code c) 12288

unfoldable pub trim_left : String → String
trim_left String.[] = ""
trim_left (String.◌∷◌ c s) = let rest = trim_left s in if is_space c then rest else String.◌∷◌ c s

unfoldable pub trim_right : String → String
trim_right String.[] = ""
trim_right (String.◌∷◌ c s) =
    let rest = trim_right s in if (rest == "") && is_space c then "" else String.◌∷◌ c rest

-- strings.TrimSpace
unfoldable pub trim_space : String → String
unfolding trim_left trim_right
trim_space s = trim_right (trim_left s)
