-- ===== src/Feature/Radio.antt =====
-- capsman_collector.go, lte_collector.go and w60g_collector.go of internal/collectors.
pub mod Sound
use mikrotik_exporter.Prelude.{
  ◌+◌, false, not, Option, none, some, List, [], ◌∷◌, ◌++◌, map, if◌then◌else◌, Bytes, codes, equal,
  is_empty, first_field, Dict, value_of,
}
use mikrotik_exporter.Convert.Duration.{Result}
use mikrotik_exporter.Convert.Values.{
  metric_from_bool, metric_from_duration, extract_property, flag,
}
use mikrotik_exporter.Config.Features.{bool_value_of}
use mikrotik_exporter.Metrics.Context.{
  label_interface, label_comment, with_labels_from_map, append_labels_from_map,
}
use mikrotik_exporter.Metrics.Property.{PropertyMetric, describe_list, describe}
use mikrotik_exporter.Feature.Base.{
  External, Errors, Act, Scope, RouterOsCollector, labels_with, context_of, pure, panic, for_each,
  join, fetch, collect_metrics,
}
use mikrotik_exporter.Feature.Chain.{
  counter, gauge, rx_tx_metric, const_metric, named, helped, converted, built, ◌>>=◌, comma_joined,
}
use mikrotik_exporter.Feature.Common.{first_row, collect_rows, collect_named}

module _ {S E F : Type 0} (x : External S E F) where
  open x use {floats}

  -- `collectRegistrations`.
  unfoldable pub collect_registrations : List (PropertyMetric F) → Scope → Act S F (Errors E)
  collect_registrations stations sc =
      if not (bool_value_of sc.feature_cfg (codes "stations") false)
      then pure []
      else collect_rows x
          (codes "/caps-man/registration-table/print"
            ∷ codes
                "=.proplist=interface,mac-address,ssid,uptime,tx-signal,rx-signal,packets,bytes,eap-identity,comment"
            ∷ [])
          stations
          (codes "interface"
            ∷ codes "mac-address"
            ∷ codes "ssid"
            ∷ codes "eap-identity"
            ∷ codes "comment"
            ∷ [])
          sc

  abbrev pub interface_labels : List Bytes
  interface_labels =
      codes "name" ∷ codes "mac-address" ∷ codes "configuration" ∷ codes "master-interface" ∷ []

  -- `collectInterfaces`.
  unfoldable pub collect_capsman_interfaces :
      List (PropertyMetric F) → List (PropertyMetric F) → Scope → Act S F (Errors E)
  collect_capsman_interfaces interfaces interfaces_status sc =
      fetch x
        (codes "/caps-man/interface/print"
          ∷ codes "?disabled=false"
          ∷ codes
              "=.proplist=name,mac-address,configuration,current-state,master-interface,current-authorized-clients,current-registered-clients,running,master,inactive,disabled"
          ∷ [])
        (λ reply. for_each reply.re (λ re.
          let lctx = with_labels_from_map (context_of sc) re.map interface_labels in
          join (collect_metrics x interfaces re.map lctx.labels) (
            collect_metrics x interfaces_status re.map
              (append_labels_from_map lctx re.map (codes "current-state" ∷ [])).labels)))

  -- `collectRadiosProvisioned`.
  unfoldable pub collect_radios_provisioned : List (PropertyMetric F) → Scope → Act S F (Errors E)
  collect_radios_provisioned radios sc =
      collect_rows x
        (codes "/caps-man/radio/print"
          ∷ codes "=.proplist=interface,radio-mac,remote-cap-identity,remote-cap-name,provisioned"
          ∷ [])
        radios
        (codes "interface"
          ∷ codes "radio-mac"
          ∷ codes "remote-cap-identity"
          ∷ codes "remote-cap-name"
          ∷ [])
        sc

  unfoldable pub collect_capsman :
      List (PropertyMetric F)
      → List (PropertyMetric F)
      → List (PropertyMetric F)
      → List (PropertyMetric F)
      → Scope
      → Act S F (Errors E)
  collect_capsman stations interfaces interfaces_status radios sc =
      join (collect_registrations stations sc) (
        join (collect_capsman_interfaces interfaces interfaces_status sc)
          (collect_radios_provisioned radios sc))

  unfoldable pub new_capsman_collector : Option (RouterOsCollector S E F)
  new_capsman_collector = do
    let label_names : List Bytes =
        label_interface
        ∷ codes "mac_address"
        ∷ codes "ssid"
        ∷ codes "eap_identity"
        ∷ label_comment
        ∷ []
    let radio_label_names : List Bytes =
        label_interface
        ∷ codes "radio_mac"
        ∷ codes "remote_cap_identity"
        ∷ codes "remote_cap_name"
        ∷ []
    let iface_label_names : List Bytes =
        label_interface
        ∷ codes "mac_address"
        ∷ codes "configuration"
        ∷ codes "master_interface"
        ∷ []
    let iface_status_label_names : List Bytes =
        label_interface
        ∷ codes "mac_address"
        ∷ codes "configuration"
        ∷ codes "master_interface"
        ∷ codes "current_state"
        ∷ []
    stations ← built floats (
        named (codes "uptime_seconds") (
          converted (metric_from_duration floats)
            (counter (codes "capsman_station") (codes "uptime") label_names))
        ∷ gauge (codes "capsman_station") (codes "tx-signal") label_names
        ∷ gauge (codes "capsman_station") (codes "rx-signal") label_names
        ∷ rx_tx_metric (codes "capsman_station") (codes "packets") label_names
        ∷ rx_tx_metric (codes "capsman_station") (codes "bytes") label_names
        ∷ [])
    interfaces ← built floats (
        gauge (codes "capsman_interface") (codes "current-authorized-clients") iface_label_names
        ∷ gauge (codes "capsman_interface") (codes "current-registered-clients") iface_label_names
        ∷ converted (metric_from_bool floats)
            (gauge (codes "capsman_interface") (codes "running") iface_label_names)
        ∷ converted (metric_from_bool floats)
            (gauge (codes "capsman_interface") (codes "master") iface_label_names)
        ∷ converted (metric_from_bool floats)
            (gauge (codes "capsman_interface") (codes "inactive") iface_label_names)
        ∷ [])
    interfaces_status ← built floats (
        named (codes "state") (
          const_metric (codes "capsman_interface") (codes "current-state") iface_status_label_names)
        ∷ [])
    radios ← built floats (
        converted (metric_from_bool floats) (
          helped (codes "Status of provision remote radios") (
            named (codes "radio_provisioned")
              (gauge (codes "capsman") (codes "provisioned") radio_label_names)))
        ∷ [])
    some (record {
      describe =
          describe_list radios
          ++ (describe_list interfaces
              ++ (describe_list interfaces_status ++ describe_list stations));
      collect = collect_capsman stations interfaces interfaces_status radios;
    })

  unfoldable pub metric_from_lte_status : Bytes → Result F
  metric_from_lte_status value = flag floats (equal value (codes "connected"))

  -- The first word of the band; `none` is the panic where the text has white space only.
  unfoldable pub primary_band : Bytes → Option Bytes
  primary_band band = if is_empty band then some [] else first_field band

  abbrev pub send_lte :
      List (PropertyMetric F) → Scope → Bytes → Dict Bytes → Option Bytes → Act S F (Errors E)
  send_lte metrics sc iface m none = panic
  send_lte metrics sc iface m (some band) =
      collect_metrics x metrics m
        (labels_with sc (iface ∷ value_of (codes "current-cellid") m ∷ band ∷ []))

  -- `collectForInterface` of the LTE interfaces.
  unfoldable pub collect_lte_for : List (PropertyMetric F) → Scope → Bytes → Act S F (Errors E)
  collect_lte_for metrics sc iface =
      fetch x
        (codes "/interface/lte/monitor"
          ∷ (codes "=number=" ++ iface)
          ∷ codes "=once="
          ∷ codes "=.proplist=current-cellid,primary-band,rssi,rsrp,rsrq,sinr,status"
          ∷ [])
        (λ reply.
          first_row reply
            (λ m. send_lte metrics sc iface m (primary_band (value_of (codes "primary-band") m))))

  unfoldable pub collect_lte : List (PropertyMetric F) → Scope → Act S F (Errors E)
  collect_lte metrics sc =
      fetch x
        (codes "/interface/lte/print" ∷ codes "?disabled=false" ∷ codes "=.proplist=name" ∷ [])
        (λ reply. for_each (extract_property reply.re (codes "name")) (collect_lte_for metrics sc))

  unfoldable pub new_lte_collector : Option (RouterOsCollector S E F)
  new_lte_collector = do
    let label_names : List Bytes = label_interface ∷ codes "cell_id" ∷ codes "primary_band" ∷ []
    metrics ← built floats (
        gauge (codes "lte_interface") (codes "rssi") label_names
        ∷ gauge (codes "lte_interface") (codes "rsrp") label_names
        ∷ gauge (codes "lte_interface") (codes "rsrq") label_names
        ∷ gauge (codes "lte_interface") (codes "sinr") label_names
        ∷ converted (metric_from_lte_status)
            (named (codes "connected") (gauge (codes "lte_interface") (codes "status") label_names))
        ∷ [])
    some (record { describe = describe_list metrics; collect = collect_lte metrics })

  -- `collectw60gMetricsForInterfaces`.
  unfoldable pub collect_w60g_for :
      List (PropertyMetric F) → List Bytes → Scope → Act S F (Errors E)
  collect_w60g_for metrics ifaces sc =
      collect_named x
        (codes "/interface/w60g/monitor"
          ∷ (codes "=numbers=" ++ comma_joined ifaces)
          ∷ codes "=once="
          ∷ codes
              "=.proplist=name,signal,rssi,tx-mcs,frequency,tx-phy-rate,tx-sector,distance,tx-packet-error-rate"
          ∷ [])
        metrics sc

  unfoldable pub collect_w60g : List (PropertyMetric F) → Scope → Act S F (Errors E)
  collect_w60g metrics sc =
      fetch x (codes "/interface/w60g/print" ∷ codes "=.proplist=name" ∷ []) (λ reply.
        first_row reply
          (λ first. collect_w60g_for metrics (extract_property reply.re (codes "name")) sc))

  unfoldable pub new_w60g_collector : Option (RouterOsCollector S E F)
  new_w60g_collector = do
    metrics ← built floats (
        gauge (codes "w60ginterface") (codes "signal") (label_interface ∷ [])
        ∷ gauge (codes "w60ginterface") (codes "rssi") (label_interface ∷ [])
        ∷ gauge (codes "w60ginterface") (codes "tx-mcs") (label_interface ∷ [])
        ∷ gauge (codes "w60ginterface") (codes "frequency") (label_interface ∷ [])
        ∷ gauge (codes "w60ginterface") (codes "tx-phy-rate") (label_interface ∷ [])
        ∷ gauge (codes "w60ginterface") (codes "tx-sector") (label_interface ∷ [])
        ∷ gauge (codes "w60ginterface") (codes "distance") (label_interface ∷ [])
        ∷ gauge (codes "w60ginterface") (codes "tx-packet-error-rate") (label_interface ∷ [])
        ∷ [])
    some (record { describe = describe_list metrics; collect = collect_w60g metrics })
