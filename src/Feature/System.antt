-- ===== src/Feature/System.antt =====
-- health_collector.go, firmware_collector.go, conntrack_collector.go, resource_collector.go and
-- certs_collecrtor.go of internal/collectors.
pub mod Sound
use mikrotik_exporter.Prelude.{
  ◌+◌, Option, none, some, List, [], ◌∷◌, ◌++◌, map, Bytes, codes, Dict, lookup, insert, value_of,
}
use mikrotik_exporter.Convert.Values.{
  metric_from_bool_neg, metric_from_duration, unix_time_from_duration,
}
use mikrotik_exporter.Convert.Times.{parse_ts}
use mikrotik_exporter.Metrics.Context.{
  Desc, description, gauge_value, label_dev_name, label_dev_address,
}
use mikrotik_exporter.Metrics.Property.{PropertyMetric, describe_list, describe}
use mikrotik_exporter.Feature.Base.{
  External, Errors, Act, Scope, RouterOsCollector, own_labels, labels_with, pure, for_each, join,
  send_const, fetch, collect_metrics,
}
use mikrotik_exporter.Feature.Chain.{counter, gauge, named, helped, converted, built, ◌>>=◌}
use mikrotik_exporter.Feature.Common.{followed_by, first_row, collect_rows}

module _ {S E F : Type 0} (x : External S E F) where
  open x use {floats, time_parse}

  -- `hack for old ros`: `none` for a row that is left out.
  unfoldable pub health_row : Dict Bytes → Option (Dict Bytes)
  health_row row = elim (lookup (codes "name") row) [
    | none ↦ some row
    | some metric ↦ elim (lookup (codes "value") row) [
      | none ↦ none
      | some v ↦ some (insert metric v row)
    ]
  ]

  abbrev pub health_body :
      List (PropertyMetric F) → Scope → Option (Dict Bytes) → Act S F (Errors E)
  health_body metrics sc none = pure []
  health_body metrics sc (some row) = collect_metrics x metrics row (own_labels sc)

  unfoldable pub collect_health : List (PropertyMetric F) → Scope → Act S F (Errors E)
  collect_health metrics sc =
      fetch x (codes "/system/health/print" ∷ [])
        (λ reply. for_each reply.re (λ re. health_body metrics sc (health_row re.map)))

  unfoldable pub new_health_collector : Option (RouterOsCollector S E F)
  new_health_collector = do
    metrics ← built floats (
        helped (codes "Input voltage to the RouterOS board, in volts")
          (gauge (codes "health") (codes "voltage") [])
        ∷ helped (codes "Temperature of RouterOS board, in degrees Celsius")
            (gauge (codes "health") (codes "temperature") [])
        ∷ helped (codes "Temperature of RouterOS CPU, in degrees Celsius")
            (gauge (codes "health") (codes "cpu-temperature") [])
        ∷ [])
    some (record { describe = describe_list metrics; collect = collect_health metrics })

  unfoldable pub collect_firmware : List (PropertyMetric F) → Scope → Act S F (Errors E)
  collect_firmware metric sc =
      collect_rows x (codes "/system/package/getall" ∷ []) metric
        (codes "name" ∷ codes "version" ∷ codes "build-time" ∷ []) sc

  unfoldable pub new_firmware_collector : Option (RouterOsCollector S E F)
  new_firmware_collector = do
    metric ← built floats (
        converted (metric_from_bool_neg floats) (
          named (codes "package_enabled") (
            gauge (codes "system") (codes "disabled")
              (codes "name" ∷ codes "version" ∷ codes "build_time" ∷ [])))
        ∷ [])
    some (record { describe = describe_list metric; collect = collect_firmware metric })

  unfoldable pub collect_conntrack :
      List (PropertyMetric F) → List (PropertyMetric F) → Scope → Act S F (Errors E)
  collect_conntrack total_entries max_entries sc =
      fetch x
        (codes "/ip/firewall/connection/tracking/print"
          ∷ codes "=.proplist=total-entries,max-entries"
          ∷ [])
        (λ reply. first_row reply (λ m.
          join (collect_metrics x total_entries m (own_labels sc))
            (collect_metrics x max_entries m (own_labels sc))))

  unfoldable pub new_conntrack_collector : Option (RouterOsCollector S E F)
  new_conntrack_collector = do
    total_entries ← built floats (
        helped (codes "Number of tracked connections")
          (gauge (codes "conntrack") (codes "total-entries") [])
        ∷ [])
    max_entries ← built floats (
        helped (codes "Conntrack table capacity")
          (gauge (codes "conntrack") (codes "max-entries") [])
        ∷ [])
    some (record {
      describe = describe_list total_entries ++ describe_list max_entries;
      collect = collect_conntrack total_entries max_entries;
    })

  unfoldable pub collect_for_stat :
      List (PropertyMetric F) → Desc → Scope → Dict Bytes → Act S F (Errors E)
  collect_for_stat metrics version_desc sc m =
      followed_by
        (send_const x version_desc gauge_value floats.one_f (
          labels_with sc (
            value_of (codes "board-name") m
            ∷ value_of (codes "version") m
            ∷ value_of (codes "architecture-name") m
            ∷ [])))
        (collect_metrics x metrics m (own_labels sc))

  unfoldable pub collect_resource : List (PropertyMetric F) → Desc → Scope → Act S F (Errors E)
  collect_resource metrics version_desc sc =
      fetch x
        (codes "/system/resource/print"
          ∷ codes
              "=.proplist=free-memory,total-memory,cpu-load,free-hdd-space,total-hdd-space,cpu-frequency,bad-blocks,uptime,cpu-count,board-name,version,architecture-name"
          ∷ [])
        (λ reply. for_each reply.re (λ re. collect_for_stat metrics version_desc sc re.map))

  unfoldable pub new_resource_collector : Option (RouterOsCollector S E F)
  new_resource_collector = do
    metrics ← built floats (
        gauge (codes "system") (codes "free-memory") []
        ∷ gauge (codes "system") (codes "total-memory") []
        ∷ gauge (codes "system") (codes "cpu-load") []
        ∷ gauge (codes "system") (codes "free-hdd-space") []
        ∷ gauge (codes "system") (codes "total-hdd-space") []
        ∷ gauge (codes "system") (codes "cpu-frequency") []
        ∷ gauge (codes "system") (codes "bad-blocks") []
        ∷ converted (metric_from_duration floats)
            (named (codes "uptime_seconds") (counter (codes "system") (codes "uptime") []))
        ∷ converted (unix_time_from_duration floats x.ago)
            (named (codes "start_time_seconds") (counter (codes "system") (codes "uptime") []))
        ∷ gauge (codes "system") (codes "cpu-count") []
        ∷ [])
    let version_desc =
        description (codes "system") (codes "routeros")
          (label_dev_name
            ∷ label_dev_address
            ∷ codes "board_name"
            ∷ codes "version"
            ∷ codes "architecture"
            ∷ [])
          (codes "Board and system version")
    some (record {
      describe = describe_list metrics ++ version_desc ∷ [];
      collect = collect_resource metrics version_desc;
    })

  unfoldable pub collect_certs : List (PropertyMetric F) → Scope → Act S F (Errors E)
  collect_certs metrics sc =
      collect_rows x
        (codes "/certificate/print"
          ∷ codes "=.proplist=name,common-name,issuer,serial-number,invalid-after"
          ∷ [])
        metrics (codes "name" ∷ codes "common-name" ∷ codes "issuer" ∷ codes "serial-number" ∷ [])
        sc

  unfoldable pub new_certs_collector : Option (RouterOsCollector S E F)
  new_certs_collector = do
    let label_names : List Bytes =
        codes "cert-name" ∷ codes "common-name" ∷ codes "issuer" ∷ codes "serial-number" ∷ []
    metrics ← built floats (
        converted (parse_ts floats time_parse)
          (gauge (codes "cert") (codes "invalid-after") label_names)
        ∷ [])
    some (record { describe = describe_list metrics; collect = collect_certs metrics })
