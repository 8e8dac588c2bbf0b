-- ===== src/Tests/NodeExamples.antt =====
-- A node on which every call succeeds, and the programs on it.
use text.Mathlib.TextLemmas.{cons≢nil}
use vlanman.Prelude.{
  List, [], ◌∷◌, pos, none, some, inl, inr, ◌≡◌, refl, arith, false, ◌⊎◌, ◌==◌, String,
  if◌then◌else◌,
}
use vlanman.Prelude.Text.{◌⧺◌, address_of}
use vlanman.Prelude.Decimal.{format_int}
use vlanman.Prelude.Run.{ok}
use vlanman.Prelude.Ends.{Ends}
use vlanman.Api.{Gateway, leader_election_lease_name}
use vlanman.Controller.Manager.{
  ManagerSet, create_desired_manager_set, daemon_set_with, service_for_manager_set,
}
use vlanman.Controller.Interface.{interface_from_daemon, interface_for}
use vlanman.Host.{Host, Environment, Link, vlan_link, cidr_mask, read_dir, pause, first_env}
use vlanman.Cmd.Interface.{interface_main, move_vlan}
use vlanman.Cmd.Interface.Endings.{IsUnbegun, IsMade, interface_main-Ending}
use vlanman.Cmd.Interface.FromManager.{job_env, interface_main-interface_from_daemon}
use vlanman.Cmd.Worker.{worker_main, url, own_net}
use vlanman.Cmd.Worker.Trace.{IsConfigured, IsBodiless, worker_main-IsConfigured}
use vlanman.Cmd.Worker.FromWebhook.{worker_env, worker-init_container}
use vlanman.Cmd.Manager.{ManagerEnvs, get_envs}
use vlanman.Cmd.Manager.FromOperator.{get_envs-daemon_set_with}
use vlanman.Cmd.Manager.Watch.{watch_round, watched_name, new_watcher, apply_all}
use vlanman.Cmd.Manager.Watch.Stores.{IsReady, Guarded, watch_round-Guarded}
use vlanman.Cmd.Manager.Watch.Rounds.{IsCurrent, watch_round-IsCurrent}
use vlanman.Cmd.Manager.Leader.{interface_setup, add_ip_address, remove_ip_address}
use vlanman.Cmd.Manager.Leader.Routes.{IsLeading, IsStopped, election_callbacks}
use vlanman.Cmd.Manager.Leader.Setup.{IsPrepared, interface_setup-IsPrepared}
use vlanman.Cmd.Manager.Macvlan.{macvlan}
use vlanman.Cmd.Manager.Macvlan.Replies.{IsReply, macvlan-IsReply}
use vlanman.Tests.Fixtures.{office, plain_pod, env}

abbrev parent : Link
parent = vlan_link (record { name = "vlan7"; index = pos 4; parent_index = pos 2 }) (pos 7)

-- An IP is parsed where its text has no "/".
abbrev pub node : Host
node = record {
  link_list_answer = λ _. inr (parent ∷ []);
  route_list_answer = λ _ _. inr [];
  link_by_name_answer = λ _ _. inr parent;
  link_add_answer = λ _ _. inr tt;
  given_index = λ _ _. pos 9;
  link_del_answer = λ _ _. inr tt;
  link_set_up_answer = λ _ _. inr tt;
  link_set_ns_pid_answer = λ _ _ _. inr tt;
  addr_add_answer = λ _ _ _. inr tt;
  addr_del_answer = λ _ _ _. inr tt;
  route_add_answer = λ _ _. inr tt;
  command_answer = λ _ _. inr "17\n";
  http_post_answer = λ _ _ _. inr (some (record { status_code = 200; body = some (inr "{}") }));
  read_dir_answer = λ _ _. inr ("lo" ∷ "vlan7" ∷ []);
  error_text = λ _. "file exists";
  parse_ip = λ s. if s == "10.0.0.9/24" then none else some (record { text = s });
  parse_cidr = λ s. inr (
    some (record { text = s }),
    record { ip = some (record { text = s }); mask = cidr_mask (pos 24) 32 },
  );
  net_text = λ _. "0.0.0.0/0";
  marshal_ns_id = λ _. inr "{}";
  unmarshal_ns_id = λ _. inr (pos 17);
  unmarshal_vlan_id = λ _. inr (pos 7);
  unmarshal_routes = λ _. inr [];
  unmarshal_gateways = λ _. inr [];
}

abbrev pub variables : Environment
variables name = if name == "VLAN_NETWORK" then "net" else "7"

interface_main-Ending_example :
    Ends
      (λ _ _. ⊥)
      (λ code h'. IsUnbegun node [] code h' ⊎ IsMade node variables [] code h')
      (λ _. ⊥)
      (interface_main node variables [])
interface_main-Ending_example = interface_main-Ending node variables []

interface_main-interface_from_daemon_example :
    interface_main node
      (job_env (
        interface_from_daemon plain_pod
          (pos 17)
          (pos 7)
          none
          "interface"
          "net"
          "Always"
          none
          false))
      []
    ≡ move_vlan node (format_int (pos 7)) (pos 7) (pos 17) (interface_for "node-a" []) []
interface_main-interface_from_daemon_example =
    interface_main-interface_from_daemon node plain_pod (pos 17) (pos 7) none "interface" "net"
      "Always" none false [] (omega arith) (omega arith)

worker_main-IsConfigured_example :
    Ends
      (λ _. IsConfigured node variables [])
      (λ code _. code ≡ 1)
      (IsBodiless node)
      (worker_main node variables [])
worker_main-IsConfigured_example = worker_main-IsConfigured node variables []

worker-init_container_example :
    (url (
        worker_env office "worker" "Always"
          (address_of "10.0.0.2/24" ⧺ ("/" ⧺ format_int (pos 24)))
          []
          "[]")
      ≡ "http://"
        ⧺ ((service_for_manager_set (create_desired_manager_set office) "vlanman-system").name
            ⧺ ".vlanman-system:61410/macvlan"))
    × (worker_env office "worker" "Always"
          (address_of "10.0.0.2/24" ⧺ ("/" ⧺ format_int (pos 24)))
          []
          "[]"
          "ROUTES"
        ≡ "[]")
    × (own_net node (
          worker_env office "worker" "Always"
            (address_of "10.0.0.2/24" ⧺ ("/" ⧺ format_int (pos 24)))
            []
            "[]")
        ≡ record { ip = node.parse_ip (address_of "10.0.0.2/24"); mask = cidr_mask (pos 24) 32 })
    × (own_net node (worker_env office "worker" "Always" (address_of "10.0.0.2/24") [] "[]")
        ≡ record { ip = node.parse_ip (address_of "10.0.0.2/24"); mask = cidr_mask (pos 32) 32 })
worker-init_container_example =
    worker-init_container node office "worker" "Always" "10.0.0.2/24" [] "[]" (pos 24) (omega arith)

abbrev mgr : ManagerSet
mgr = record {
  owner_network_name = "net";
  vlan_id = pos 7;
  gateways = some [];
  manager_affinity = none;
  mappings = none;
}

get_envs-daemon_set_with_example :
    get_envs node (first_env (daemon_set_with mgr env "[]").template.containers) [] ≡ (
      ok (record {
        owner_net_name = "net";
        namespace = "vlanman-system";
        vlan_id = pos 7;
        lock_name = leader_election_lease_name ⧺ ("-" ⧺ "net");
        gateways = [];
      }),
      [],
    )
get_envs-daemon_set_with_example =
    get_envs-daemon_set_with node mgr env "[]" [] cons≢nil (omega arith) cons≢nil refl

watch_round-Guarded_example :
    Ends
      (λ stores _. Guarded new_watcher stores × IsReady (apply_all new_watcher stores))
      (λ _ _. Unit)
      (λ _. ⊥)
      (watch_round node (pos 7) [])
watch_round-Guarded_example =
    watch_round-Guarded node (pos 7) new_watcher [] (λ up. absurd (ground arith))

watch_round-IsCurrent_example :
    Ends
      (λ stores h'.
        (ents : List String) × (node.read_dir_answer "/sys/class/net" (pause ∷ []) ≡ inr ents)
        × IsCurrent node
            (watched_name node (pos 7))
            new_watcher
            (read_dir "/sys/class/net" ∷ pause ∷ [])
            ents
            stores
            h')
      (λ e h'.
        (node.read_dir_answer "/sys/class/net" (pause ∷ []) ≡ inl e)
        × (h' ≡ read_dir "/sys/class/net" ∷ pause ∷ []))
      (λ _. ⊥)
      (watch_round node (pos 7) [])
watch_round-IsCurrent_example = watch_round-IsCurrent node (pos 7) new_watcher []

abbrev gateway : Gateway
gateway = record {
  address = "10.0.0.9/24";
  routes = some (
      record { destination = "10.1.0.0/16"; via = none; source = "self"; scope_link = false } ∷ []);
}

abbrev pub leading : ManagerEnvs
leading = record {
  owner_net_name = "net";
  namespace = "vlanman-system";
  vlan_id = pos 7;
  lock_name = "lock";
  gateways = gateway ∷ [];
}

election_callbacks_example :
    Ends
      (λ _. IsLeading node leading parent [] [])
      (λ code _. code ≡ 1)
      (λ _. ⊥)
      (add_ip_address node leading (some parent) [] [])
    × Ends
        (λ _. IsStopped node leading [] [])
        (λ code _. code ≡ 1)
        (λ _. ⊥)
        (remove_ip_address node leading [] [])
election_callbacks_example = election_callbacks node leading parent [] []

interface_setup-IsPrepared_example :
    Ends
      (IsPrepared node leading (some parent) [])
      (λ code _. code ≡ 1)
      (λ _. some parent ≡ none)
      (interface_setup node leading (some parent) [])
interface_setup-IsPrepared_example = interface_setup-IsPrepared node leading (some parent) []

macvlan-IsReply_example :
    Ends
      (IsReply node (pos 7) (some (inr "{}")) [])
      (λ _ _. ⊥)
      (λ _. ⊥)
      (macvlan node (pos 7) (some (inr "{}")) [])
macvlan-IsReply_example = macvlan-IsReply node (pos 7) (some (inr "{}")) []
