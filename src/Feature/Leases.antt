-- ===== src/Feature/Leases.antt =====
-- dhcp_collector.go, dhcp_lease_collector.go and dhcpv6_collector.go of internal/collectors.
pub mod Sound
use mikrotik_exporter.Prelude.{
  ◌+◌, Option, none, some, List, [], ◌∷◌, ◌++◌, map, if◌then◌else◌, Bytes, codes, Dict, value_of,
}
use mikrotik_exporter.Convert.Values.{metric_from_string, extract_property}
use mikrotik_exporter.Metrics.Context.{Desc, label_comment}
use mikrotik_exporter.Metrics.Counter.{count_by_property}
use mikrotik_exporter.Metrics.Property.{PropertyMetric, describe_list, describe}
use mikrotik_exporter.Feature.Base.{
  External, Errors, Act, Scope, RouterOsCollector, labels_with, pure, panic, for_each, fetch,
  collect_metrics, send_counts,
}
use mikrotik_exporter.Feature.Chain.{
  const_metric, ret_metric, named, helped, converted, built, ◌>>=◌,
}
use mikrotik_exporter.Feature.Common.{
  has_details, labelled, followed_by, clean_host_name, collect_done,
}

module _ {S E F : Type 0} (x : External S E F) where
  open x use {floats, quote}

  unfoldable pub collect_dhcp : List (PropertyMetric F) → Scope → Act S F (Errors E)
  collect_dhcp leases_active_count sc =
      fetch x
        (codes "/ip/dhcp-server/print" ∷ codes "?disabled=false" ∷ codes "=.proplist=name" ∷ [])
        (λ reply. for_each (extract_property reply.re (codes "name")) (λ n.
          collect_done x
            (codes "/ip/dhcp-server/lease/print"
              ∷ (codes "?server=" ++ n)
              ∷ codes "=active="
              ∷ codes "=count-only="
              ∷ [])
            leases_active_count (labels_with sc (n ∷ []))))

  unfoldable pub new_dhcp_collector : Option (RouterOsCollector S E F)
  new_dhcp_collector = do
    leases_active_count ← built floats (
        converted (metric_from_string floats) (
          helped (codes "number of active leases per DHCP server")
            (ret_metric (codes "dhcp") (codes "leases_active") (codes "server" ∷ [])))
        ∷ [])
    some (record {
      describe = describe_list leases_active_count;
      collect = collect_dhcp leases_active_count;
    })

  abbrev pub send_lease :
      List (PropertyMetric F) → Scope → Dict Bytes → Option Bytes → Act S F (Errors E)
  send_lease leases sc m none = panic
  send_lease leases sc m (some host_name) = collect_metrics x leases m (
      labels_with sc (
        value_of (codes "active-mac-address") m
        ∷ value_of (codes "server") m
        ∷ value_of (codes "status") m
        ∷ value_of (codes "active-address") m
        ∷ host_name
        ∷ value_of (codes "comment") m
        ∷ value_of (codes "address") m
        ∷ value_of (codes "mac-address") m
        ∷ []))

  -- `collectMetric` of the leases.
  unfoldable pub collect_lease : List (PropertyMetric F) → Scope → Dict Bytes → Act S F (Errors E)
  collect_lease leases sc m =
      send_lease leases sc m (clean_host_name quote (value_of (codes "host-name") m))

  unfoldable pub collect_dhcp_leases : List (PropertyMetric F) → Desc → Scope → Act S F (Errors E)
  collect_dhcp_leases leases statuses sc =
      fetch x
        (codes "/ip/dhcp-server/lease/print"
          ∷ codes "?disabled=false"
          ∷ codes
              "=.proplist=active-mac-address,server,status,active-address,host-name,comment,address,mac-address"
          ∷ [])
        (λ reply.
          followed_by (send_counts x sc statuses (count_by_property reply.re (codes "status"))) (
            if has_details sc
            then for_each reply.re (λ re. collect_lease leases sc re.map)
            else pure []))

  unfoldable pub new_dhcpl_collector : Option (RouterOsCollector S E F)
  new_dhcpl_collector = do
    let label_names : List Bytes =
        codes "activemacaddress"
        ∷ codes "server"
        ∷ codes "status"
        ∷ codes "activeaddress"
        ∷ codes "hostname"
        ∷ label_comment
        ∷ codes "dhcp_address"
        ∷ codes "dhcp_macaddress"
        ∷ []
    leases ← built floats (
        named (codes "leases_status") (const_metric (codes "dhcp") (codes "status") label_names)
        ∷ [])
    let statuses =
        labelled (codes "dhcp") (codes "leases_by_status") (codes "Number of DHCP leases by status")
          (codes "status")
    some (record {
      describe = describe_list leases ++ statuses ∷ [];
      collect = collect_dhcp_leases leases statuses;
    })

  unfoldable pub collect_dhcpv6 : List (PropertyMetric F) → Scope → Act S F (Errors E)
  collect_dhcpv6 binding_count sc =
      if sc.device.ipv6_disabled
      then pure []
      else fetch x
          (codes "/ipv6/dhcp-server/print" ∷ codes "?disabled=false" ∷ codes "=.proplist=name" ∷ [])
          (λ reply. for_each (extract_property reply.re (codes "name")) (λ n.
            collect_done x
              (codes "/ipv6/dhcp-server/binding/print"
                ∷ (codes "?server=" ++ n)
                ∷ codes "=count-only="
                ∷ [])
              binding_count (labels_with sc (n ∷ []))))

  unfoldable pub new_dhcpv6_collector : Option (RouterOsCollector S E F)
  new_dhcpv6_collector = do
    binding_count ← built floats (
        helped (codes "number of active bindings per DHCPv6 server")
          (ret_metric (codes "dhcpv6") (codes "binding") (codes "server" ∷ []))
        ∷ [])
    some (record { describe = describe_list binding_count; collect = collect_dhcpv6 binding_count })
