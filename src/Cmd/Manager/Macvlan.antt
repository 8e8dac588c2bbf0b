-- ===== src/Cmd/Manager/Macvlan.antt =====
-- The handler `macvlan` of cmd/manager/main.go, which makes the interface that the worker
-- of a pod asks for, and moves it to the pod's network namespace.
pub mod Replies
use vlanman.Prelude.{
  ℕ, ℤ, pos, String, List, [], ◌∷◌, Option, none, some, ◌⊎◌, inl, inr, Bool, true, false, eqb, ◌==◌,
  if◌then◌else◌,
}
use vlanman.Prelude.Text.{◌⧺◌}
use vlanman.Prelude.Decimal.{format_int}
use vlanman.Prelude.Run.{Run, return, fail, ask, catch, ◌>>=◌, ◌>>◌}
use vlanman.Errors.{GoError}
use vlanman.Host.{
  Host, HostAnswer, HostEvent, Link, macvlan_link, attrs_of, new_attrs, CommandError, exit_error,
  no_exit, link_by_name, link_add, link_del, link_set_up, command, contains_text, trim_space,
}
use Prim.Native.Char.{Char, code}
use Prim.Native.String

-- The status of the response and the number in its MacvlanResponse.
pub record Reply : Type 0 where
  pub status : ℕ
  pub id : ℤ

-- The error is `writeError` with the return after it.
abbrev Handler : Type 0 → Type 0
Handler = Run HostEvent (Unit {0})

abbrev pub or_write_error : {E A : Type 0} → E ⊎ A → Handler A
or_write_error (inl _) = fail tt
or_write_error (inr a) = return a

-- The body of the request, which may be nil, as io.ReadAll reads it.
abbrev pub body_or_error : Option (GoError ⊎ String) → Handler String
body_or_error none = fail tt
body_or_error (some read) = or_write_error read

-- The text before the first newline, if there is one.
unfoldable pub first_line : String → Option String
first_line String.[] = none
first_line (String.◌∷◌ c s) =
    let rest = first_line s in
    if eqb (code c) b'\n'
    then some ""
    else elim rest [ none ↦ none | some line ↦ some (String.◌∷◌ c line) ]

-- The process that the output of lsns names.
pub named_pid : String → String
unfolding first_line trim_space
named_pid out = trim_space (elim (first_line out) [ none ↦ trim_space out | some line ↦ line ])

module _ (host : Host) (vlan_id : ℤ) where
  abbrev pub parent_name : String
  parent_name = "vlan" ⧺ format_int vlan_id

  abbrev macvlan_name : String
  macvlan_name = "macvlan" ⧺ format_int vlan_id

  abbrev pub list_ns : ℤ → List String
  list_ns ns_id = "bash" ∷ "-c" ∷ ("lsns | grep " ⧺ (format_int ns_id ⧺ " | awk '{print $4}'")) ∷ []

  abbrev pub set_ns : String → List String
  set_ns pid = "ip" ∷ "link" ∷ "set" ∷ macvlan_name ∷ "netns" ∷ pid ∷ []

  -- An interface of that name goes first.
  abbrev pub remove_found : HostAnswer Link → Handler (Unit {0})
  remove_found (inl _) = return tt
  remove_found (inr link) = do
    gone ← ask (link_del link) (host.link_del_answer link)
    or_write_error gone

  -- Where the interface cannot be set up it is deleted, which may fail too.
  abbrev or_delete : Link → HostAnswer (Unit {0}) → Handler (Unit {0})
  or_delete macvlan (inl _) = do ask (link_del macvlan) (host.link_del_answer macvlan); fail tt
  or_delete macvlan (inr _) = return tt

  -- `ip link set`, whose complaint that the file exists is passed over.
  abbrev pub after_set_ns : CommandError ⊎ String → Handler (Unit {0})
  after_set_ns (inr _) = return tt
  after_set_ns (inl (exit_error stderr)) =
      if contains_text stderr "File exists" then return tt else fail tt
  after_set_ns (inl (no_exit _)) = fail tt

  -- The macvlan on the interface that was found.
  abbrev pub macvlan_on : Link → Link
  macvlan_on vlan = macvlan_link (new_attrs macvlan_name (attrs_of vlan).index)

  -- The move to the namespace of a process, and the response.
  pub move_to : String → Handler Reply
  move_to pid = do
    moved ← ask (command (set_ns pid)) (host.command_answer (set_ns pid))
    after_set_ns moved
    return (record { status = 200; id = vlan_id })

  -- From the making of the interface to the response.
  pub move_macvlan : Link → ℤ → Handler Reply
  move_macvlan macvlan ns_id = do
    added ← ask (link_add macvlan) (host.link_add_answer macvlan)
    or_write_error added
    up ← ask (link_set_up macvlan) (host.link_set_up_answer macvlan)
    or_delete macvlan up
    out ← ask (command (list_ns ns_id)) (host.command_answer (list_ns ns_id))
    listed ← or_write_error out
    move_to (named_pid listed)

  pub make_macvlan : ℤ → Handler Reply
  make_macvlan ns_id = do
    found ← ask (link_by_name parent_name) (host.link_by_name_answer parent_name)
    vlan ← or_write_error found
    old ← ask (link_by_name macvlan_name) (host.link_by_name_answer macvlan_name)
    remove_found old
    move_macvlan (macvlan_on vlan) ns_id

  -- macvlan, on the body of the request.
  pub macvlan : Option (GoError ⊎ String) → Handler Reply
  macvlan body =
      catch
        (do
          out ← body_or_error body
          ns_id ← or_write_error (host.unmarshal_ns_id out)
          make_macvlan ns_id)
        (λ _. return (record { status = 500; id = pos 0 }))
