-- ===== src/Feature/Ethernet.antt =====
-- monitor_collector.go, poe_collector.go, optics_collector.go and switch_collector.go of
-- internal/collectors.
pub mod Proplist
pub mod Sound
use mikrotik_exporter.Prelude.{
  ℕ, ℤ, ◌+◌, Bool, true, false, ◌||◌, Option, none, some, List, [], ◌∷◌, ◌++◌, map, if◌then◌else◌,
  Bytes, codes, equal, strip_prefix, Dict, lookup, value_of,
}
use mikrotik_exporter.Proto.Sentence.{Sentence}
use mikrotik_exporter.Convert.Numbers.{atoi}
use mikrotik_exporter.Convert.Duration.{Result, ok}
use mikrotik_exporter.Convert.Values.{metric_from_bool, extract_property, flag}
use mikrotik_exporter.Metrics.Context.{
  Desc, description, counter_value, label_dev_name, label_dev_address, label_interface,
}
use mikrotik_exporter.Metrics.Property.{PropertyMetric, describe_list, describe}
use mikrotik_exporter.Feature.Base.{
  External, Errors, Act, Scope, RouterOsCollector, labels_with, pure, for_each, join, send_const,
  fetch, collect_metrics, float_of,
}
use mikrotik_exporter.Feature.Chain.{counter, gauge, helped, converted, built, ◌>>=◌, comma_joined}
use mikrotik_exporter.Feature.Common.{has_details, first_row, collect_named}

module _ {S E F : Type 0} (x : External S E F) where
  open x use {floats}

  unfoldable pub metric_from_link_status : Bytes → Result F
  metric_from_link_status value = flag floats (equal value (codes "link-ok"))

  -- The cases of `metricFromRate`.
  abbrev pub rates : Dict ℕ
  rates =
      (codes "10Mbps", 10)
      ∷ (codes "100Mbps", 100)
      ∷ (codes "1Gbps", 1000)
      ∷ (codes "2.5Gbps", 2500)
      ∷ (codes "5Gbps", 5000)
      ∷ (codes "10Gbps", 10000)
      ∷ (codes "25Gbps", 25000)
      ∷ (codes "40Gbps", 40000)
      ∷ (codes "50Gbps", 50000)
      ∷ (codes "100Gbps", 100000)
      ∷ []

  unfoldable pub metric_from_rate : Bytes → Result F
  metric_from_rate v =
      let value : ℕ = elim (lookup v rates) [ none ↦ 0 | some n ↦ n ] in ok (float_of x value)

  abbrev pub has_prefix : Bytes → Bytes → Bool
  has_prefix s prefix = elim (strip_prefix prefix s) [ none ↦ false | some _ ↦ true ]

  unfoldable pub collect_for_monitor :
      List (PropertyMetric F) → List Bytes → Scope → Act S F (Errors E)
  collect_for_monitor metrics eths sc =
      fetch x
        (codes "/interface/ethernet/monitor"
          ∷ (codes "=numbers=" ++ comma_joined eths)
          ∷ codes "=once="
          ∷ codes "=.proplist=name,status,rate,full-duplex"
          ∷ [])
        (λ reply. for_each reply.re (λ e.
          collect_metrics x metrics e.map (labels_with sc (value_of (codes "name") e.map ∷ []))))

  unfoldable pub collect_monitor : List (PropertyMetric F) → Scope → Act S F (Errors E)
  collect_monitor metrics sc =
      fetch x
        (codes "/interface/ethernet/print" ∷ codes "?disabled=false" ∷ codes "=.proplist=name" ∷ [])
        (λ reply. collect_for_monitor metrics (extract_property reply.re (codes "name")) sc)

  unfoldable pub new_monitor_collector : Option (RouterOsCollector S E F)
  new_monitor_collector = do
    metrics ← built floats (
        converted (metric_from_link_status)
          (gauge (codes "monitor") (codes "status") (label_interface ∷ []))
        ∷ converted (metric_from_rate)
            (gauge (codes "monitor") (codes "rate") (label_interface ∷ []))
        ∷ converted (metric_from_bool floats)
            (gauge (codes "monitor") (codes "full-duplex") (label_interface ∷ []))
        ∷ [])
    some (record { describe = describe_list metrics; collect = collect_monitor metrics })

  -- `collectPOEMetricsForInterfaces`.
  unfoldable pub collect_poe_for : List (PropertyMetric F) → List Bytes → Scope → Act S F (Errors E)
  collect_poe_for metrics ifaces sc =
      collect_named x
        (codes "/interface/ethernet/poe/monitor"
          ∷ (codes "=numbers=" ++ comma_joined ifaces)
          ∷ codes "=once="
          ∷ codes "=.proplist=poe-out-current,poe-out-voltage,poe-out-power"
          ∷ [])
        metrics sc

  unfoldable pub collect_poe : List (PropertyMetric F) → Scope → Act S F (Errors E)
  collect_poe metrics sc =
      fetch x (codes "/interface/ethernet/poe/print" ∷ codes "=.proplist=name" ∷ []) (λ reply.
        first_row reply
          (λ first. collect_poe_for metrics (extract_property reply.re (codes "name")) sc))

  unfoldable pub new_poe_collector : Option (RouterOsCollector S E F)
  new_poe_collector = do
    metrics ← built floats (
        helped (codes "current in mA")
          (gauge (codes "poe") (codes "current") (label_interface ∷ []))
        ∷ helped (codes "power in W") (gauge (codes "poe") (codes "wattage") (label_interface ∷ []))
        ∷ helped (codes "voltage in V")
            (gauge (codes "poe") (codes "voltage") (label_interface ∷ []))
        ∷ [])
    some (record { describe = describe_list metrics; collect = collect_poe metrics })

  -- The names of the interfaces for optical modules.
  unfoldable pub optical : List Sentence → List Bytes
  optical [] = []
  optical (iface ∷ re) =
      let n = value_of (codes "name") iface.map in
      let rest = optical re in
      if has_prefix n (codes "sfp")
        || has_prefix (value_of (codes "default-name") iface.map) (codes "sfp")
      then n ∷ rest
      else rest

  -- `collectOpticalMetricsForInterfaces`.
  unfoldable pub collect_optics_for :
      List (PropertyMetric F) → List Bytes → Scope → Act S F (Errors E)
  collect_optics_for metrics ifaces sc =
      collect_named x
        (codes "/interface/ethernet/monitor"
          ∷ (codes "=numbers=" ++ comma_joined ifaces)
          ∷ codes "=once="
          ∷ codes
              "=.proplist=name,sfp-rx-loss,sfp-tx-fault,sfp-temperature,sfp-supply-voltage,sfp-rx-power,sfp-tx-power,sfp-tx-bias-current"
          ∷ [])
        metrics sc

  unfoldable pub collect_optics : List (PropertyMetric F) → Scope → Act S F (Errors E)
  collect_optics metrics sc =
      fetch x
        (codes "/interface/ethernet/print"
          ∷ codes "?disabled=false"
          ∷ codes "=.proplist=name,default-name"
          ∷ [])
        (λ reply. first_row reply (λ first. collect_optics_for metrics (optical reply.re) sc))

  unfoldable pub new_optics_collector : Option (RouterOsCollector S E F)
  new_optics_collector = do
    metrics ← built floats (
        converted (metric_from_bool floats) (
          helped (codes "RX status")
            (gauge (codes "optics") (codes "sfp-rx-loss") (label_interface ∷ [])))
        ∷ converted (metric_from_bool floats) (
            helped (codes "TX status")
              (gauge (codes "optics") (codes "sfp-tx-fault") (label_interface ∷ [])))
        ∷ helped (codes "RX power in dBM")
            (gauge (codes "optics") (codes "sfp-rx-power") (label_interface ∷ []))
        ∷ helped (codes "TX power in dBM")
            (gauge (codes "optics") (codes "sfp-tx-power") (label_interface ∷ []))
        ∷ helped (codes "temperature in degree celsius")
            (gauge (codes "optics") (codes "sfp-temperature") (label_interface ∷ []))
        ∷ helped (codes "bias is milliamps")
            (gauge (codes "optics") (codes "sfp-tx-bias-current") (label_interface ∷ []))
        ∷ gauge (codes "optics") (codes "sfp-supply-voltage") (label_interface ∷ [])
        ∷ [])
    some (record { describe = describe_list metrics; collect = collect_optics metrics })

  -- The keys that `collectDetails` leaves out.
  unfoldable pub is_skipped : Bytes → Bool
  is_skipped k =
      equal k (codes "name")
      || equal k (codes "type")
      || equal k (codes "invalid")
      || equal k (codes ".id")
      || has_prefix k (codes "mirror")
      || has_prefix k (codes "driver-")

  abbrev pub send_stat : Desc → Scope → Bytes → Bytes → Option ℤ → Act S F (Errors E)
  send_stat stats sc name k none = pure []
  send_stat stats sc name k (some val) =
      send_const x stats counter_value (floats.of_int val) (labels_with sc (name ∷ k ∷ []))

  -- `collectDetails` of a switch.
  unfoldable pub collect_switch_details : Desc → Scope → Bytes → Dict Bytes → Act S F (Errors E)
  collect_switch_details stats sc name remap =
      for_each remap
        (λ (k, v). if is_skipped k then pure [] else send_stat stats sc name k (atoi v))

  unfoldable pub collect_switch : Desc → List (PropertyMetric F) → Scope → Act S F (Errors E)
  collect_switch stats stats_driver sc =
      fetch x (codes "/interface/ethernet/switch/print" ∷ []) (λ reply. for_each reply.re (λ re.
        let name = value_of (codes "name") re.map in
        join (collect_metrics x stats_driver re.map (labels_with sc (name ∷ [])))
          (if has_details sc then collect_switch_details stats sc name re.map else pure [])))

  unfoldable pub new_switch_collector : Option (RouterOsCollector S E F)
  new_switch_collector = do
    let label_names : List Bytes = codes "switch" ∷ []
    stats_driver ← built floats (
        counter (codes "switch") (codes "driver-rx-byte") label_names
        ∷ counter (codes "switch") (codes "driver-rx-packet") label_names
        ∷ counter (codes "switch") (codes "driver-tx-byte") label_names
        ∷ counter (codes "switch") (codes "driver-tx-packet") label_names
        ∷ counter (codes "switch") (codes "rx-broadcast") label_names
        ∷ counter (codes "switch") (codes "rx-bytes") label_names
        ∷ counter (codes "switch") (codes "rx-drop") label_names
        ∷ counter (codes "switch") (codes "rx-multicast") label_names
        ∷ counter (codes "switch") (codes "rx-packet") label_names
        ∷ counter (codes "switch") (codes "tx-broadcast") label_names
        ∷ counter (codes "switch") (codes "tx-bytes") label_names
        ∷ counter (codes "switch") (codes "tx-drop") label_names
        ∷ counter (codes "switch") (codes "tx-multicast") label_names
        ∷ counter (codes "switch") (codes "tx-packet") label_names
        ∷ [])
    let stats =
        description (codes "switch") (codes "stats")
          (label_dev_name ∷ label_dev_address ∷ codes "switch" ∷ codes "metric" ∷ [])
          (codes "switch statistics")
    some (record {
      describe = (stats ∷ []) ++ describe_list stats_driver;
      collect = collect_switch stats stats_driver;
    })
