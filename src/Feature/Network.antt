-- ===== src/Feature/Network.antt =====
-- interface_collector.go, ip_collector.go, dns_collector.go and dns_adlist_collector.go of
-- internal/collectors.
pub mod Sound
use mikrotik_exporter.Prelude.{
  Option, some, List, [], ◌∷◌, map, if◌then◌else◌, Bytes, codes, equal, value_of, pos,
}
use mikrotik_exporter.Convert.Values.{metric_from_bool}
use mikrotik_exporter.Metrics.Context.{label_interface}
use mikrotik_exporter.Metrics.Property.{PropertyMetric, describe_list, describe}
use mikrotik_exporter.Feature.Base.{
  External, Errors, Act, Scope, RouterOsCollector, own_labels, labels_from, pure, for_each, fetch,
  collect_metrics,
}
use mikrotik_exporter.Feature.Chain.{counter, gauge, named, converted, built, ◌>>=◌}
use mikrotik_exporter.Feature.Common.{is_before, unsupported, collect_rows}

module _ {S E F : Type 0} (x : External S E F) where
  open x use {floats}

  unfoldable pub collect_interface : List (PropertyMetric F) → Scope → Act S F (Errors E)
  collect_interface metrics sc =
      fetch x
        (codes "/interface/print"
          ∷ codes "?disabled=false"
          ∷ codes
              "=.proplist=name,type,disabled,actual-mtu,running,rx-byte,tx-byte,rx-packet,tx-packet,rx-error,tx-error,rx-drop,tx-drop,link-downs,tx-queue-drop,fp-tx-byte,fp-tx-packet,fp-rx-byte,fp-tx-packet"
          ∷ [])
        (λ reply. for_each reply.re (λ re.
          if equal (value_of (codes "name") re.map) (codes "lo")
          then pure []
          else collect_metrics x metrics re.map
              (labels_from sc re.map (codes "name" ∷ codes "type" ∷ []))))

  unfoldable pub new_interface_collector : Option (RouterOsCollector S E F)
  new_interface_collector = do
    let label_names : List Bytes = label_interface ∷ codes "type" ∷ []
    metrics ← built floats (
        gauge (codes "interface") (codes "actual-mtu") label_names
        ∷ converted (metric_from_bool floats)
            (gauge (codes "interface") (codes "running") label_names)
        ∷ counter (codes "interface") (codes "rx-byte") label_names
        ∷ counter (codes "interface") (codes "tx-byte") label_names
        ∷ counter (codes "interface") (codes "rx-packet") label_names
        ∷ counter (codes "interface") (codes "tx-packet") label_names
        ∷ counter (codes "interface") (codes "rx-error") label_names
        ∷ counter (codes "interface") (codes "tx-error") label_names
        ∷ counter (codes "interface") (codes "rx-drop") label_names
        ∷ counter (codes "interface") (codes "tx-drop") label_names
        ∷ counter (codes "interface") (codes "link-downs") label_names
        ∷ counter (codes "interface") (codes "tx-queue-drop") label_names
        ∷ counter (codes "interface") (codes "fp-rx-byte") label_names
        ∷ counter (codes "interface") (codes "fp-rx-packet") label_names
        ∷ counter (codes "interface") (codes "fp-tx-byte") label_names
        ∷ counter (codes "interface") (codes "fp-tx-packet") label_names
        ∷ [])
    some (record { describe = describe_list metrics; collect = collect_interface metrics })

  unfoldable pub collect_ip : List (PropertyMetric F) → Scope → Act S F (Errors E)
  collect_ip metrics sc =
      fetch x
        (codes "/ip/settings/print"
          ∷ codes
              "=.proplist=ipv4-fast-path-active,ipv4-fast-path-bytes,ipv4-fast-path-packets,ipv4-fasttrack-active,ipv4-fasttrack-bytes,ipv4-fasttrack-packets"
          ∷ [])
        (λ reply. for_each reply.re (λ re. collect_metrics x metrics re.map (own_labels sc)))

  unfoldable pub new_ip_collector : Option (RouterOsCollector S E F)
  new_ip_collector = do
    metrics ← built floats (
        converted (metric_from_bool floats)
          (counter (codes "ip") (codes "ipv4-fast-path-active") [])
        ∷ counter (codes "ip") (codes "ipv4-fast-path-bytes") []
        ∷ counter (codes "ip") (codes "ipv4-fast-path-packets") []
        ∷ converted (metric_from_bool floats)
            (counter (codes "ip") (codes "ipv4-fasttrack-active") [])
        ∷ counter (codes "ip") (codes "ipv4-fasttrack-bytes") []
        ∷ counter (codes "ip") (codes "ipv4-fasttrack-packets") []
        ∷ [])
    some (record { describe = describe_list metrics; collect = collect_ip metrics })

  unfoldable pub collect_dns : List (PropertyMetric F) → Scope → Act S F (Errors E)
  collect_dns metrics sc =
      fetch x (codes "/ip/dns/print" ∷ codes "=.proplist=cache-size,cache-used" ∷ [])
        (λ reply. for_each reply.re (λ re. collect_metrics x metrics re.map (own_labels sc)))

  unfoldable pub new_dns_collector : Option (RouterOsCollector S E F)
  new_dns_collector = do
    metrics ← built floats (
        named (codes "cache_used_bytes") (gauge (codes "dns") (codes "cache-used") [])
        ∷ named (codes "cache_size_bytes") (gauge (codes "dns") (codes "cache-size") [])
        ∷ [])
    some (record { describe = describe_list metrics; collect = collect_dns metrics })

  unfoldable pub collect_dns_adlist : List (PropertyMetric F) → Scope → Act S F (Errors E)
  collect_dns_adlist metrics sc =
      if is_before sc (pos 7) (pos 15)
      then unsupported (codes "dns_adlist")
      else collect_rows x
          (codes "/ip/dns/adlist/print"
            ∷ codes "?disabled=false"
            ∷ codes "=.proplist=url,match-count,name-count"
            ∷ [])
          metrics (codes "url" ∷ []) sc

  unfoldable pub new_dns_adlist_collector : Option (RouterOsCollector S E F)
  new_dns_adlist_collector = do
    metrics ← built floats (
        named (codes "match_count_total")
          (counter (codes "dns_adlist") (codes "match-count") (codes "url" ∷ []))
        ∷ named (codes "name_count")
            (gauge (codes "dns_adlist") (codes "name-count") (codes "url" ∷ []))
        ∷ [])
    some (record { describe = describe_list metrics; collect = collect_dns_adlist metrics })
