-- ===== src/Cmd/Manager/Collector.antt =====
-- cmd/manager/collector.go, with logNewLeader and getValues of cmd/manager/main.go: the metrics.
-- A channel that metrics are sent to is the list of them, in the order in which they are sent.
pub mod Collected
pub mod Changes
use vlanman.Prelude.{
  ℕ, zero, suc, ◌+◌, ℤ, pos, String, List, [], ◌∷◌, ◌++◌, Option, none, some, ◌⊎◌, inl, inr, Bool,
  true, false, ◌==◌, if◌then◌else◌,
}
use vlanman.Prelude.Maps.{Dict}
use vlanman.Prelude.Text.{◌⧺◌}
use vlanman.Prelude.Run.{Run, return, crash, call, ask, attempt, ◌>>=◌, ◌>>◌}
use vlanman.Errors.{GoError}
use vlanman.Host.{Host, HostAnswer, HostEvent, Link, Environment, link_by_name, proc_fs, net_dev}

-- prometheus.NewDesc
pub record Desc : Type 0 where
  pub fq_name : String
  pub help : String
  pub variable_labels : List String
  pub const_labels : Dict String

pub data ValueType : Type 0 where
  counter_value gauge_value : ValueType

-- A float64, by what it is made of: a number, or the seconds of a duration in nanoseconds.
pub data Float : Type 0 where
  of_int : ℤ → Float
  seconds : ℤ → Float

pub record Metric : Type 0 where
  pub desc : Desc
  pub value_type : ValueType
  pub value : Float
  pub label_values : List String

-- procfs.NetDevLine: the fields that are read.
pub record NetDevLine : Type 0 where
  pub name : String
  pub rx_bytes : ℕ
  pub tx_bytes : ℕ
  pub rx_packets : ℕ
  pub tx_packets : ℕ

-- Prometheus, /proc and the clock: `takes` tells whether MustNewConstMetric takes the labels.
pub record Monitor : Type 0 where
  pub takes : Desc → List String → Bool
  pub proc_fs_answer : List HostEvent → HostAnswer (Unit {0})
  pub net_dev_answer : List HostEvent → HostAnswer (Dict NetDevLine)
  -- time.Since, in nanoseconds.
  pub since : ℕ → List HostEvent → ℤ
  -- link.Type() and link.Attrs().OperState.String()
  pub type_of : Link → String
  pub oper_state : Link → String

-- leaderChanges and lastLeaderChange; `none` before the first Store.
pub record LeaderStats : Type 0 where
  pub changes : ℕ
  pub last : Option ℕ

-- getValues
pub get_values : LeaderStats → ℕ × Option ℕ
get_values stats = (stats.changes, stats.last)

-- The two writes of logNewLeader, each of them atomic, and the whole.
abbrev pub add_change : LeaderStats → LeaderStats
add_change stats = record stats { changes = stats.changes + 1 }

abbrev pub store_last : ℕ → LeaderStats → LeaderStats
store_last now stats = record stats { last = some now }

pub log_new_leader : ℕ → LeaderStats → LeaderStats
log_new_leader now stats = store_last now (add_change stats)

pub record ManagerCollector : Type 0 where
  pub leader_change_cnt : Desc
  pub secs_since_leader_change : Desc
  pub bytes_in : Desc
  pub bytes_out : Desc
  pub packets_in : Desc
  pub packets_out : Desc
  pub interface_state : Desc
  pub namespace : String

abbrev new_desc : String → String → List String → Dict String → Desc
new_desc fq_name help variable_labels const_labels = record {
  fq_name = fq_name;
  help = help;
  variable_labels = variable_labels;
  const_labels = const_labels;
}

abbrev interface_labels : List String
interface_labels = "interface" ∷ "type" ∷ "id" ∷ []

-- NewManagerCollector; the id is not used.
unfoldable pub new_manager_collector : String → ℤ → ManagerCollector
new_manager_collector network id =
    let ns : String = "vlanman" in
    record {
      namespace = ns;
      leader_change_cnt =
          new_desc (ns ⧺ "_leader_change_cnt") "Number of times the leader election changed leaders"
            [] (("network", network) ∷ []);
      secs_since_leader_change =
          new_desc (ns ⧺ "_seconds_since_leader_change_cnt")
            "Number of seconds since the last leader change" [] (("network", network) ∷ []);
      bytes_in =
          new_desc (ns ⧺ "_bytes_in") "Number of bytes received on the interface" interface_labels
            [];
      bytes_out =
          new_desc (ns ⧺ "_bytes_out") "Number of bytes sent on the interface" interface_labels [];
      packets_in =
          new_desc (ns ⧺ "_packets_in") "Number of packets received on the interface"
            interface_labels [];
      packets_out =
          new_desc (ns ⧺ "_packets_out") "Number of packets sent on the interface" interface_labels
            [];
      interface_state =
          new_desc (ns ⧺ "_interface_state") "State of the interface, value of 1 means 'up'"
            ("interface" ∷ "state" ∷ "type" ∷ "id" ∷ []) [];
    }

-- Describe
pub describe : ManagerCollector → List Desc
describe mc =
    mc.leader_change_cnt ∷ mc.secs_since_leader_change ∷ mc.bytes_in ∷ mc.bytes_out ∷ mc.packets_in
    ∷ mc.packets_out ∷ mc.interface_state ∷ []

abbrev pub Collecting : Type 0 → Type 0
Collecting = Run HostEvent GoError

module _ (host : Host) (mon : Monitor) (mc : ManagerCollector) (env : Environment) where
  -- prometheus.MustNewConstMetric
  abbrev pub must_new : Desc → ValueType → Float → List String → Collecting Metric
  must_new desc value_type value labels =
      if mon.takes desc labels
      then return
          (record { desc = desc; value_type = value_type; value = value; label_values = labels })
      else crash

  -- A gauge of a device.
  abbrev pub gauge : Desc → ℕ → NetDevLine → Link → Collecting Metric
  gauge desc n dev link =
      must_new desc gauge_value (of_int (pos n)) (dev.name ∷ mon.type_of link ∷ env "VLAN_ID" ∷ [])

  abbrev pub link_info : NetDevLine → HostAnswer Link → Collecting (List Metric)
  link_info dev (inl _) = return []
  link_info dev (inr link) = do
    let state_value = if mon.oper_state link == "up" then 1 else 0
    rx_bytes ← gauge mc.bytes_in dev.rx_bytes dev link
    tx_bytes ← gauge mc.bytes_out dev.tx_bytes dev link
    rx_packets ← gauge mc.packets_in dev.rx_packets dev link
    tx_packets ← gauge mc.packets_out dev.tx_packets dev link
    state ←
        must_new mc.interface_state gauge_value (of_int (pos state_value))
          (dev.name ∷ mon.oper_state link ∷ mon.type_of link ∷ env "VLAN_ID" ∷ [])
    return (rx_bytes ∷ tx_bytes ∷ rx_packets ∷ tx_packets ∷ state ∷ [])

  -- collectDevInfo
  pub collect_dev_info : NetDevLine → Collecting (List Metric)
  collect_dev_info dev = do
    found ← ask (link_by_name dev.name) (host.link_by_name_answer dev.name)
    link_info dev found

  -- The loop over the devices.
  pub collect_devs : Dict NetDevLine → Collecting (List Metric)
  collect_devs [] = return []
  collect_devs ((_, dev) ∷ nd) = do
    metrics ← collect_dev_info dev
    later ← collect_devs nd
    return (metrics ++ later)

  abbrev pub after_net_dev : List Metric → GoError ⊎ Dict NetDevLine → Collecting (List Metric)
  after_net_dev sent (inl _) = return sent
  after_net_dev sent (inr nd) = do metrics ← collect_devs nd; return (sent ++ metrics)

  abbrev pub after_fs : List Metric → GoError ⊎ Unit {0} → Collecting (List Metric)
  after_fs sent (inl _) = return sent
  after_fs sent (inr _) = do nd ← attempt (call net_dev mon.net_dev_answer); after_net_dev sent nd

  abbrev pub since_change : Option ℕ → Collecting (List Metric)
  since_change none h = return [] h
  since_change (some last) h =
      (do
        metric ← must_new mc.secs_since_leader_change gauge_value (seconds (mon.since last h)) []
        return (metric ∷ []))
        h

  -- Collect, with what getValues reads: the count, and the time of the last change if there was one.
  pub collect : ℕ → Option ℕ → Collecting (List Metric)
  collect cnt secs = do
    changes ← must_new mc.leader_change_cnt counter_value (of_int (pos cnt)) []
    since ← since_change secs
    fs ← attempt (call proc_fs mon.proc_fs_answer)
    after_fs (changes ∷ since) fs
