-- ===== src/Feature/Routing.antt =====
-- neighbor_collector.go and routes_collector.go of internal/collectors.
pub mod Sound
use mikrotik_exporter.Prelude.{
  ◌+◌, Option, some, List, [], ◌∷◌, ◌++◌, map, if◌then◌else◌, Bytes, codes,
}
use mikrotik_exporter.Metrics.Context.{Desc, label_interface}
use mikrotik_exporter.Metrics.Counter.{count_by_property}
use mikrotik_exporter.Metrics.Property.{PropertyMetric, describe_list, describe}
use mikrotik_exporter.Feature.Base.{
  External, Errors, Act, Scope, RouterOsCollector, labels_with, labels_from, pure, for_each,
  for_first, join, unless_error, fetch, collect_metrics, send_counts,
}
use mikrotik_exporter.Feature.Chain.{const_metric, ret_metric, named, helped, built, ◌>>=◌}
use mikrotik_exporter.Feature.Common.{is_before_7, has_details, labelled, followed_by, collect_done}

module _ {S E F : Type 0} (x : External S E F) where
  open x use {floats}

  abbrev pub neighbor_labels : List Bytes
  neighbor_labels =
      (codes "about"
        ∷ codes "address4"
        ∷ codes "discovered-by"
        ∷ codes "interface"
        ∷ codes "ipv6"
        ∷ codes "platform"
        ∷ codes "software-id"
        ∷ codes "version"
        ∷ codes "address"
        ∷ codes "address6"
        ∷ codes "board"
        ∷ codes "identity"
        ∷ codes "interface-name"
        ∷ codes "mac-address"
        ∷ codes "system-caps"
        ∷ codes "system-description"
        ∷ [])

  unfoldable pub collect_neighbor : List (PropertyMetric F) → Desc → Scope → Act S F (Errors E)
  collect_neighbor metrics stats sc =
      let proplist =
        if is_before_7 sc
        then codes
            "=.proplist=address4,interface,ipv6,platform,software-id,version,address,address6,board,identity,interface-name,mac-address,system-caps,system-description"
        else codes
            "=.proplist=address4,discovered-by,interface,ipv6,platform,software-id,version,address,address6,board,identity,interface-name,mac-address,system-caps,system-description" in
      fetch x (codes "/ip/neighbor/print" ∷ proplist ∷ []) (λ reply.
        followed_by (send_counts x sc stats (count_by_property reply.re (codes "interface"))) (
          if has_details sc
          then for_each reply.re
              (λ re. collect_metrics x metrics re.map (labels_from sc re.map neighbor_labels))
          else pure []))

  unfoldable pub new_neighbor_collector : Option (RouterOsCollector S E F)
  new_neighbor_collector = do
    let label_names : List Bytes =
        codes "about"
        ∷ codes "address4"
        ∷ codes "discovered-by"
        ∷ label_interface
        ∷ codes "ipv6"
        ∷ codes "platform"
        ∷ codes "software-id"
        ∷ codes "version"
        ∷ codes "neighbor-address"
        ∷ codes "address6"
        ∷ codes "board"
        ∷ codes "identity"
        ∷ codes "interface-name"
        ∷ codes "mac-address"
        ∷ codes "system-caps"
        ∷ codes "system-description"
        ∷ []
    metrics ←
        built floats (
          named (codes "entry") (const_metric (codes "neighbor") (codes "address") label_names)
          ∷ [])
    let stats =
        labelled (codes "neighbor") (codes "discovered")
          (codes "Number of discovered neighbors by interface") (codes "interface")
    some (record { describe = describe_list metrics; collect = collect_neighbor metrics stats })

  unfoldable pub collect_count :
      List (PropertyMetric F) → Scope → Bytes → Bytes → Act S F (Errors E)
  collect_count count sc ip_version topic =
      collect_done x
        ((b'/' ∷ topic ++ codes "/route/print")
          ∷ codes "?disabled=false"
          ∷ codes "=count-only="
          ∷ [])
        count (labels_with sc (ip_version ∷ []))

  unfoldable pub collect_count_protocol :
      List (PropertyMetric F) → Scope → Bytes → Bytes → Bytes → Act S F (Errors E)
  collect_count_protocol count_protocol sc ip_version topic protocol =
      collect_done x
        ((b'/' ∷ topic ++ codes "/route/print")
          ∷ codes "?disabled=false"
          ∷ (b'?' ∷ protocol)
          ∷ codes "=count-only="
          ∷ [])
        count_protocol (labels_with sc (ip_version ∷ protocol ∷ []))

  unfoldable pub collect_for_ip_version :
      List (PropertyMetric F)
      → List (PropertyMetric F)
      → List Bytes
      → Scope
      → Bytes
      → Bytes
      → Act S F (Errors E)
  collect_for_ip_version count count_protocol protocols sc ip_version topic =
      unless_error (collect_count count sc ip_version topic)
        (for_first protocols (collect_count_protocol count_protocol sc ip_version topic))

  unfoldable pub collect_routes :
      List (PropertyMetric F) → List (PropertyMetric F) → List Bytes → Scope → Act S F (Errors E)
  collect_routes count count_protocol protocols sc =
      join (collect_for_ip_version count count_protocol protocols sc (codes "4") (codes "ip")) (
        if sc.device.ipv6_disabled
        then pure []
        else collect_for_ip_version count count_protocol protocols sc (codes "6") (codes "ipv6"))

  unfoldable pub new_routes_collector : Option (RouterOsCollector S E F)
  new_routes_collector = do
    count ← built floats (
        helped (codes "number of routes in RIB")
          (ret_metric (codes "routes") (codes "") (codes "ip_version" ∷ []))
        ∷ [])
    count_protocol ← built floats (
        helped (codes "number of routes per protocol in RIB") (
          ret_metric (codes "routes") (codes "protocol")
            (codes "ip_version" ∷ codes "protocol" ∷ []))
        ∷ [])
    some (record {
      describe = describe_list count ++ describe_list count_protocol;
      collect = collect_routes count count_protocol (
          codes "bgp"
          ∷ codes "static"
          ∷ codes "ospf"
          ∷ codes "dynamic"
          ∷ codes "connect"
          ∷ codes "rip"
          ∷ []);
    })
