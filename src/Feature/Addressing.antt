-- ===== src/Feature/Addressing.antt =====
-- arp_collector.go, pool_collector.go and ipv6_neighbor_collector.go of internal/collectors.
pub mod Sound
use mikrotik_exporter.Prelude.{
  ◌+◌, Option, some, List, [], ◌∷◌, ◌++◌, map, if◌then◌else◌, Bytes, codes, value_of,
}
use mikrotik_exporter.Convert.Values.{metric_from_bool}
use mikrotik_exporter.Metrics.Context.{Desc, label_interface, label_comment}
use mikrotik_exporter.Metrics.Counter.{count_by_property}
use mikrotik_exporter.Metrics.Property.{PropertyMetric, describe_list, describe}
use mikrotik_exporter.Feature.Base.{
  External, Errors, Act, Scope, RouterOsCollector, own_labels, labels_with, labels_from, pure,
  for_each, for_first, join, fetch, collect_metrics, send_counts,
}
use mikrotik_exporter.Feature.Chain.{gauge, ret_metric, helped, converted, built, built_one, ◌>>=◌}
use mikrotik_exporter.Feature.Common.{
  has_details, labelled, followed_by, itoa, collect_rows, collect_done, collect_statuses,
}

module _ {S E F : Type 0} (x : External S E F) where
  open x use {floats}

  -- `collectEntries`.
  unfoldable pub collect_arp_entries : List (PropertyMetric F) → Desc → Scope → Act S F (Errors E)
  collect_arp_entries metrics statuses sc =
      fetch x
        (codes "/ip/arp/print"
          ∷ codes "?complete=true"
          ∷ codes "=.proplist=address,mac-address,interface,comment,dynamic,dhcp,complete,status"
          ∷ [])
        (λ reply.
          followed_by (send_counts x sc statuses (count_by_property reply.re (codes "status"))) (
            if has_details sc
            then for_each reply.re (λ re. collect_metrics x metrics re.map (
                labels_from sc re.map (
                  codes "address"
                  ∷ codes "interface"
                  ∷ codes "mac-address"
                  ∷ codes "comment"
                  ∷ codes "dhcp"
                  ∷ codes "dynamic"
                  ∷ [])))
            else pure []))

  unfoldable pub collect_arp :
      List (PropertyMetric F) → Desc → List (PropertyMetric F) → Scope → Act S F (Errors E)
  collect_arp metrics statuses invalid sc = join (collect_arp_entries metrics statuses sc) (
      join
        (collect_statuses x
          (λ status.
            codes "/ip/arp/print" ∷ (codes "?status=" ++ status) ∷ codes "=count-only=" ∷ [])
          statuses (codes "failed" ∷ codes "incomplete" ∷ []) sc)
        (collect_done x (codes "/ip/arp/print" ∷ codes "?invalid=true" ∷ codes "=count-only=" ∷ [])
          invalid (own_labels sc)))

  unfoldable pub new_arp_collector : Option (RouterOsCollector S E F)
  new_arp_collector = do
    let label_names : List Bytes =
        codes "client_address"
        ∷ label_interface
        ∷ codes "mac_address"
        ∷ label_comment
        ∷ codes "dhcp"
        ∷ codes "dynamic"
        ∷ []
    metrics ← built floats (
        converted (metric_from_bool floats) (gauge (codes "arp") (codes "complete") label_names)
        ∷ [])
    let statuses =
        labelled (codes "arp") (codes "status") (codes "arp entry statuses") (codes "status")
    invalid ← built floats (ret_metric (codes "arp") (codes "invalid") [] ∷ [])
    some (record {
      describe = describe_list metrics ++ (statuses ∷ [] ++ describe_list invalid);
      collect = collect_arp metrics statuses invalid;
    })

  -- `collectForIPv4` of the pools.
  unfoldable pub collect_pools_ipv4 : List (PropertyMetric F) → Scope → Act S F (Errors E)
  collect_pools_ipv4 metrics sc =
      fetch x (codes "/ip/pool/print" ∷ codes "=.proplist=name,total,used" ∷ []) (λ reply.
        for_each reply.re (λ re.
          collect_metrics x metrics re.map
            (labels_with sc (codes "4" ∷ value_of (codes "name") re.map ∷ []))))

  -- `collectForIPv6` of the pools, with the first metric.
  unfoldable pub collect_pools_ipv6 : List (PropertyMetric F) → Scope → Act S F (Errors E)
  collect_pools_ipv6 first_metric sc =
      fetch x (codes "/ipv6/pool/used/print" ∷ codes "=.proplist=pool" ∷ []) (λ reply.
        for_first (count_by_property reply.re (codes "pool")) (λ (pool, used).
          collect_metrics x first_metric ((codes "used", itoa used) ∷ [])
            (labels_with sc (codes "6" ∷ pool ∷ []))))

  unfoldable pub collect_pools :
      PropertyMetric F → List (PropertyMetric F) → Scope → Act S F (Errors E)
  collect_pools first_metric others sc =
      join (collect_pools_ipv4 (first_metric ∷ others) sc)
        (if sc.device.ipv6_disabled then pure [] else collect_pools_ipv6 (first_metric ∷ []) sc)

  unfoldable pub new_pool_collector : Option (RouterOsCollector S E F)
  new_pool_collector = do
    let label_names : List Bytes = codes "ip_version" ∷ codes "pool" ∷ []
    first_metric ← built_one floats (
        helped (codes "number of used IP/prefixes in a pool")
          (gauge (codes "ip_pool") (codes "used") label_names))
    others ← built floats (
        helped (codes "number of total IP in a pool")
          (gauge (codes "ip_pool") (codes "total") label_names)
        ∷ [])
    some (record {
      describe = describe_list (first_metric ∷ []) ++ describe_list others;
      collect = collect_pools first_metric others;
    })

  unfoldable pub collect_ipv6_neighbor : List (PropertyMetric F) → Desc → Scope → Act S F (Errors E)
  collect_ipv6_neighbor metrics statuses sc =
      if sc.device.ipv6_disabled
      then pure []
      else join
          (if has_details sc
            then collect_rows x
                (codes "/ipv6/neighbor/print"
                  ∷ codes "?status=reachable"
                  ∷ codes "=.proplist=address,mac-address,interface,dynamic,dhcp,router,status"
                  ∷ [])
                metrics
                (codes "address"
                  ∷ codes "interface"
                  ∷ codes "mac-address"
                  ∷ codes "comment"
                  ∷ codes "dhcp"
                  ∷ codes "dynamic"
                  ∷ [])
                sc
            else pure [])
          (collect_statuses x
            (λ status.
              codes "/ipv6/neighbor/print"
              ∷ (codes "?status=" ++ status)
              ∷ codes "=count-only="
              ∷ [])
            statuses
            (codes "noarp"
              ∷ codes "incomplete"
              ∷ codes "reachable"
              ∷ codes "stale"
              ∷ codes "delay"
              ∷ codes "probe"
              ∷ codes "failed"
              ∷ [])
            sc)

  unfoldable pub new_ipv6_neighbor_collector : Option (RouterOsCollector S E F)
  new_ipv6_neighbor_collector = do
    let label_names : List Bytes =
        codes "address"
        ∷ label_interface
        ∷ codes "mac_address"
        ∷ codes "dynamic"
        ∷ codes "router"
        ∷ []
    metrics ← built floats (
        converted (metric_from_bool floats)
          (gauge (codes "ipv6_neighbor") (codes "reachable") label_names)
        ∷ [])
    let statuses =
        labelled (codes "ipv6_neighbor") (codes "status") (codes "neighbor entry statuses")
          (codes "status")
    some (record {
      describe = describe_list metrics ++ statuses ∷ [];
      collect = collect_ipv6_neighbor metrics statuses;
    })
