-- ===== src/Cmd/Manager/Collector/Collected.antt =====
-- Which metrics Collect sends.
use vlanman.Prelude.{
  ℕ, ℤ, pos, String, List, [], ◌∷◌, ◌++◌, Option, none, some, inl, inr, true, ◌≡◌, refl, All,
  All-append, length, ◌==◌, if◌then◌else◌,
}
use mathlib.Core.List.{append-nil}
use vlanman.Prelude.Maps.{Dict}
use vlanman.Prelude.Run.{ok, ◌>>=◌}
use vlanman.Prelude.Ends.{
  Ends, Ends-return, Ends-call, Ends-bind, Ends-bind-ask, Ends-bind-attempt, Ends-map_value,
}
use vlanman.Host.{Host, HostAnswer, HostEvent, Link, Environment, link_by_name, proc_fs, net_dev}
use vlanman.Cmd.Manager.Collector.{
  Desc, ValueType, counter_value, gauge_value, Float, of_int, seconds, Metric, NetDevLine, Monitor,
  ManagerCollector, new_manager_collector, describe, must_new, link_info, collect_dev_info,
  collect_devs, since_change, after_fs, collect,
}

-- A metric with as many labels as its description, which is one of those that Describe sends.
pub data IsOneOf (d : Desc) : List Desc → Type 0 where
  first : {ds : List Desc} → IsOneOf d (d ∷ ds)
  later : {e : Desc} {ds : List Desc} → IsOneOf d ds → IsOneOf d (e ∷ ds)

pub record IsDescribed (mc : ManagerCollector) (m : Metric) : Type 0 where
  pub described : IsOneOf m.desc (describe mc)
  pub labelled : length m.label_values ≡ length m.desc.variable_labels

abbrev metric : Desc → ValueType → Float → List String → Metric
metric d t v ls = record { desc = d; value_type = t; value = v; label_values = ls }

module _ (host : Host) (mon : Monitor) (network : String) (id : ℤ) (env : Environment) where
  abbrev mc : ManagerCollector
  mc = new_manager_collector network id

  -- The metrics of a device whose link was found.
  abbrev pub of_link : NetDevLine → Link → List Metric
  of_link dev link =
      let kind = mon.type_of link in
      let state = mon.oper_state link in
      let labels = dev.name ∷ kind ∷ env "VLAN_ID" ∷ [] in
      metric mc.bytes_in gauge_value (of_int (pos dev.rx_bytes)) labels
      ∷ metric mc.bytes_out gauge_value (of_int (pos dev.tx_bytes)) labels
      ∷ metric mc.packets_in gauge_value (of_int (pos dev.rx_packets)) labels
      ∷ metric mc.packets_out gauge_value (of_int (pos dev.tx_packets)) labels
      ∷ metric mc.interface_state gauge_value (of_int (pos (if state == "up" then 1 else 0)))
          (dev.name ∷ state ∷ kind ∷ env "VLAN_ID" ∷ [])
      ∷ []

  abbrev if_found : NetDevLine → HostAnswer Link → List Metric
  if_found dev (inl _) = []
  if_found dev (inr link) = of_link dev link

  -- For each device in turn the metrics of its link, if it is found.
  pub of_devs : Dict NetDevLine → List HostEvent → List Metric
  of_devs [] h = []
  of_devs ((_, dev) ∷ nd) h =
      if_found dev (host.link_by_name_answer dev.name h) ++ of_devs nd (link_by_name dev.name ∷ h)

  abbrev of_proc :
      HostAnswer (Unit {0}) → HostAnswer (Dict NetDevLine) → List HostEvent → List Metric
  of_proc (inl _) nd h = []
  of_proc (inr _) (inl _) h = []
  of_proc (inr _) (inr nd) h = of_devs nd h

  abbrev of_last : Option ℕ → List HostEvent → List Metric
  of_last none h = []
  of_last (some last) h =
      metric mc.secs_since_leader_change gauge_value (seconds (mon.since last h)) [] ∷ []

  -- The count, the time since the last change if there was one, and what /proc can be read to tell.
  abbrev pub expected : ℕ → Option ℕ → List HostEvent → List Metric
  expected cnt secs h =
      metric mc.leader_change_cnt counter_value (of_int (pos cnt)) []
      ∷ (of_last secs h
          ++ of_proc (mon.proc_fs_answer h) (mon.net_dev_answer (proc_fs ∷ h))
              (net_dev ∷ proc_fs ∷ h))

  if_found-IsDescribed :
      (dev : NetDevLine) (a : HostAnswer Link) → All (IsDescribed mc) (if_found dev a)
  unfolding describe new_manager_collector
  if_found-IsDescribed dev (inl _) = tt
  if_found-IsDescribed dev (inr link) = (
    record { described = later (later first); labelled = refl },
    (
      record { described = later (later (later first)); labelled = refl },
      (
        record { described = later (later (later (later first))); labelled = refl },
        (
          record { described = later (later (later (later (later first)))); labelled = refl },
          (
            record {
              described = later (later (later (later (later (later first)))));
              labelled = refl;
            },
            tt,
          ),
        ),
      ),
    ),
  )

  of_devs-IsDescribed :
      (nd : Dict NetDevLine) (h : List HostEvent) → All (IsDescribed mc) (of_devs nd h)
  unfolding of_devs
  of_devs-IsDescribed [] h = tt
  of_devs-IsDescribed ((_, dev) ∷ nd) h =
      All-append (IsDescribed mc) _ _
        (if_found-IsDescribed dev (host.link_by_name_answer dev.name h))
        (of_devs-IsDescribed nd (link_by_name dev.name ∷ h))

  expected-IsDescribed :
      (cnt : ℕ) (secs : Option ℕ) (h : List HostEvent) → All (IsDescribed mc) (expected cnt secs h)
  unfolding describe new_manager_collector
  expected-IsDescribed cnt secs h = (
    record { described = first; labelled = refl },
    All-append (IsDescribed mc) _ _ (last_described secs)
        (proc_described (mon.proc_fs_answer h) (mon.net_dev_answer (proc_fs ∷ h))),
  )
    where
      last_described : (last : Option ℕ) → All (IsDescribed mc) (of_last last h)
      last_described none = tt
      last_described (some last) = (record { described = later first; labelled = refl }, tt)

      proc_described :
          (fs : HostAnswer (Unit {0})) (nd : HostAnswer (Dict NetDevLine))
          → All (IsDescribed mc) (of_proc fs nd (net_dev ∷ proc_fs ∷ h))
      proc_described (inl _) nd = tt
      proc_described (inr _) (inl _) = tt
      proc_described (inr _) (inr nd) = of_devs-IsDescribed nd (net_dev ∷ proc_fs ∷ h)

  module _
      (takes : (d : Desc) (ls : List String)
        → length ls ≡ length d.variable_labels
        → mon.takes d ls ≡ true) where
    link_info_lem :
        (dev : NetDevLine) (a : HostAnswer Link) (h : List HostEvent)
        → link_info host mon mc env dev a h ≡ (ok (if_found dev a), h)
    unfolding ◌>>=◌ new_manager_collector
    link_info_lem dev (inl e) h = refl
    link_info_lem dev (inr link) h =
        let labels = dev.name ∷ mon.type_of link ∷ env "VLAN_ID" ∷ [] in
        rw
          (
            takes mc.bytes_in labels refl,
            takes mc.bytes_out labels refl,
            takes mc.packets_in labels refl,
            takes mc.packets_out labels refl,
            takes mc.interface_state
                (dev.name ∷ mon.oper_state link ∷ mon.type_of link ∷ env "VLAN_ID" ∷ []) refl,
          )
          refl

    collect_dev_info-Ends :
        (dev : NetDevLine) (h : List HostEvent)
        → Ends
            (λ ms h'.
              (ms ≡ if_found dev (host.link_by_name_answer dev.name h))
              × (h' ≡ link_by_name dev.name ∷ h))
            (λ _ _. ⊥)
            (λ _. ⊥)
            (collect_dev_info host mon mc env dev h)
    unfolding collect_dev_info
    collect_dev_info-Ends dev h = Ends-bind-ask _ _ _ h (
        rw (link_info_lem dev (host.link_by_name_answer dev.name h) (link_by_name dev.name ∷ h))
          (record { holds = (refl, refl) }))

    collect_devs-Ends :
        (nd : Dict NetDevLine) (h : List HostEvent)
        → Ends (λ ms _. ms ≡ of_devs nd h) (λ _ _. ⊥) (λ _. ⊥) (collect_devs host mon mc env nd h)
    unfolding collect_devs of_devs
    collect_devs-Ends [] h = Ends-return _ _ refl
    collect_devs-Ends ((k, dev) ∷ nd) h =
        Ends-bind _ _ _ h (collect_dev_info-Ends dev h) (λ ms h' (is, at).
          Ends-bind (λ later _. later ≡ of_devs nd (link_by_name dev.name ∷ h)) _ _ h'
            (rw at (collect_devs-Ends nd (link_by_name dev.name ∷ h)))
            (λ later h'' same. Ends-return _ _ (rw (is, same) refl)))

    since_change_lem :
        (secs : Option ℕ) (h : List HostEvent)
        → since_change host mon mc env secs h ≡ (ok (of_last secs h), h)
    unfolding ◌>>=◌ new_manager_collector
    since_change_lem none h = refl
    since_change_lem (some last) h = rw (takes mc.secs_since_leader_change [] refl) refl

    leader_change :
        (cnt : ℕ) (h : List HostEvent)
        → Ends
            (λ m h'.
              (m ≡ metric mc.leader_change_cnt counter_value (of_int (pos cnt)) []) × (h' ≡ h))
            (λ _ _. ⊥)
            (λ _. ⊥)
            (must_new host mon mc env mc.leader_change_cnt counter_value (of_int (pos cnt)) [] h)
    unfolding new_manager_collector
    leader_change cnt h = rw (takes mc.leader_change_cnt [] refl) (Ends-return _ _ (refl, refl))

    after_fs-expected :
        (cnt : ℕ) (secs : Option ℕ) (h : List HostEvent) (a : Unit {0})
        → mon.proc_fs_answer h ≡ inr a
        → Ends
            (λ ms _. ms ≡ expected cnt secs h)
            (λ _ _. ⊥)
            (λ _. ⊥)
            (after_fs host mon mc env
              (metric mc.leader_change_cnt counter_value (of_int (pos cnt)) [] ∷ of_last secs h)
              (inr a)
              (proc_fs ∷ h))
    after_fs-expected cnt secs h a read =
        Ends-bind-attempt
          (λ nd h'. (mon.net_dev_answer (proc_fs ∷ h) ≡ inr nd) × (h' ≡ net_dev ∷ proc_fs ∷ h))
          (λ e h'. (mon.net_dev_answer (proc_fs ∷ h) ≡ inl e) × (h' ≡ net_dev ∷ proc_fs ∷ h)) _ _
          (proc_fs ∷ h) (Ends-call _ _ (proc_fs ∷ h) (λ e eq. (eq, refl)) (λ nd eq. (eq, refl)))
          (λ e h' (eq, _). Ends-return _ _ (rw (read, eq, append-nil) refl))
          (λ nd h' (eq, at).
            Ends-bind (λ ms _. ms ≡ of_devs nd (net_dev ∷ proc_fs ∷ h)) _ _ h'
              (rw at (collect_devs-Ends nd (net_dev ∷ proc_fs ∷ h)))
              (λ ms h'' same. Ends-return _ _ (rw (read, eq, same) refl)))

    collect-expected :
        (cnt : ℕ) (secs : Option ℕ) (h : List HostEvent)
        → Ends
            (λ ms _. ms ≡ expected cnt secs h)
            (λ _ _. ⊥)
            (λ _. ⊥)
            (collect host mon mc env cnt secs h)
    unfolding collect
    collect-expected cnt secs h =
        Ends-bind
          (λ m h'. (m ≡ metric mc.leader_change_cnt counter_value (of_int (pos cnt)) []) × (h' ≡ h))
          _ _ h (leader_change cnt h)
          (λ changes h0 (is, at).
            Ends-bind (λ ms h'. (ms ≡ of_last secs h) × (h' ≡ h)) _ _ h0
              (rw (at, since_change_lem secs h) (record { holds = (refl, refl) }))
              (λ since h1 (same, there).
                rw (is, same, there)
                  (Ends-bind-attempt (λ a h'. (mon.proc_fs_answer h ≡ inr a) × (h' ≡ proc_fs ∷ h))
                    (λ e h'. (mon.proc_fs_answer h ≡ inl e) × (h' ≡ proc_fs ∷ h)) _ _ h
                    (Ends-call _ _ h (λ e eq. (eq, refl)) (λ a eq. (eq, refl)))
                    (λ e h' (eq, _). Ends-return _ _ (rw (eq, append-nil) refl))
                    (λ a h' (eq, at_fs). rw at_fs (after_fs-expected cnt secs h a eq)))))

    -- Where Prometheus takes a metric that has as many labels as its description, Collect never
    -- panics; it sends the number of changes of the leader, the time since the last if there was one,
    -- and, if /proc can be read, for each device in turn the four counters and the state of its
    -- link, where that is found. Each metric is of a description that Describe sends.
    pub collect-IsExpected :
        (cnt : ℕ) (secs : Option ℕ) (h : List HostEvent)
        → Ends
            (λ ms _. (ms ≡ expected cnt secs h) × All (IsDescribed mc) ms)
            (λ _ _. ⊥)
            (λ _. ⊥)
            (collect host mon mc env cnt secs h)
    collect-IsExpected cnt secs h =
        Ends-map_value (λ ms _ same. (same, rw same (expected-IsDescribed cnt secs h)))
          (collect-expected cnt secs h)
