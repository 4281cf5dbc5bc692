-- ===== src/Feature/Queues.antt =====
-- queue_collector.go and service_collector.go of internal/collectors.
pub mod Sound
use mikrotik_exporter.Prelude.{
  ◌+◌, Option, some, List, [], ◌∷◌, ◌++◌, if◌then◌else◌, Bytes, codes, pos,
}
use mikrotik_exporter.Convert.Duration.{Result}
use mikrotik_exporter.Convert.Values.{split_string_to_floats}
use mikrotik_exporter.Metrics.Context.{Desc, label_comment}
use mikrotik_exporter.Metrics.Counter.{count_by_property}
use mikrotik_exporter.Metrics.Property.{PropertyMetric, describe_list, describe}
use mikrotik_exporter.Feature.Base.{
  External, Errors, Act, Scope, RouterOsCollector, own_labels, join, unless_error, fetch,
  collect_metrics, send_counts,
}
use mikrotik_exporter.Feature.Chain.{gauge, rx_tx_metric, rx_tx_converted, built, ◌>>=◌}
use mikrotik_exporter.Feature.Common.{is_before, labelled, unsupported, first_row, collect_rows}

module _ {S E F : Type 0} (x : External S E F) where
  open x use {floats}

  unfoldable pub metric_from_queue_tx_rx : Bytes → Result (F × F)
  metric_from_queue_tx_rx value = split_string_to_floats floats b'/' value

  -- `collectQueue`.
  unfoldable pub collect_queue_monitor :
      List (PropertyMetric F) → List (PropertyMetric F) → Scope → Act S F (Errors E)
  collect_queue_monitor queued_bytes queued_packets sc =
      fetch x
        (codes "/queue/monitor"
          ∷ codes "=once="
          ∷ codes "=.proplist=queued-packets,queued-bytes"
          ∷ [])
        (λ reply. first_row reply (λ m.
          unless_error (collect_metrics x queued_bytes m (own_labels sc))
            (collect_metrics x queued_packets m (own_labels sc))))

  -- `collectSimpleQueue` is its second part.
  unfoldable pub collect_queue :
      List (PropertyMetric F)
      → List (PropertyMetric F)
      → List (PropertyMetric F)
      → Scope
      → Act S F (Errors E)
  collect_queue queued_bytes queued_packets metrics sc =
      join (collect_queue_monitor queued_bytes queued_packets sc) (
        collect_rows x
          (codes "/queue/simple/print"
            ∷ codes "?disabled=false"
            ∷ codes "=.proplist=name,queue,comment,bytes,packets,queued-bytes,queued-packets"
            ∷ [])
          metrics (codes "name" ∷ codes "queue" ∷ codes "comment" ∷ []) sc)

  unfoldable pub new_queue_collector : Option (RouterOsCollector S E F)
  new_queue_collector = do
    let label_names : List Bytes = codes "simple_queue_name" ∷ codes "queue" ∷ label_comment ∷ []
    queued_bytes ← built floats (gauge (codes "queue") (codes "queued-bytes") [] ∷ [])
    queued_packets ← built floats (gauge (codes "queue") (codes "queued-packets") [] ∷ [])
    metrics ← built floats (
        rx_tx_converted (metric_from_queue_tx_rx)
          (rx_tx_metric (codes "simple_queue") (codes "packets") label_names)
        ∷ rx_tx_converted (metric_from_queue_tx_rx)
            (rx_tx_metric (codes "simple_queue") (codes "bytes") label_names)
        ∷ rx_tx_converted (metric_from_queue_tx_rx)
            (rx_tx_metric (codes "simple_queue") (codes "queued-packets") label_names)
        ∷ rx_tx_converted (metric_from_queue_tx_rx)
            (rx_tx_metric (codes "simple_queue") (codes "queued-bytes") label_names)
        ∷ [])
    some (record {
      describe =
          describe_list metrics ++ (describe_list queued_bytes ++ describe_list queued_packets);
      collect = collect_queue queued_bytes queued_packets metrics;
    })

  unfoldable pub collect_service : Desc → Scope → Act S F (Errors E)
  collect_service metrics sc =
      if is_before sc (pos 7) (pos 19)
      then unsupported (codes "service collector is available since RO 7.19")
      else fetch x (codes "/ip/service/print" ∷ codes "?connection" ∷ codes "=.proplist=name" ∷ [])
          (λ reply. send_counts x sc metrics (count_by_property reply.re (codes "name")))

  unfoldable pub new_service_collector : Option (RouterOsCollector S E F)
  new_service_collector =
      let metrics =
        labelled (codes "service") (codes "active_connections_count")
          (codes "number of active connection for service") (codes "service") in
      some (record { describe = metrics ∷ []; collect = collect_service metrics })
