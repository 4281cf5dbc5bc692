-- ===== src/Feature/Registry.antt =====
-- The registry of the collectors: internal/collectors/mod.go, and the `init` functions of the files
-- beside it, here in the order of the files' names. The map and its functions are those of
-- Collector/Exporter. A constructor that panics is `none`.
pub mod Sound
pub mod Total
use mikrotik_exporter.Prelude.{Option, none, some, List, [], ◌∷◌, Bytes, codes, Dict}
use mikrotik_exporter.Collector.Exporter.{register_collector, instantiate_collector}
use mikrotik_exporter.Feature.Base.{External, RouterOsCollector}
use mikrotik_exporter.Feature.Addressing.{
  new_arp_collector, new_ipv6_neighbor_collector, new_pool_collector,
}
use mikrotik_exporter.Feature.Leases.{new_dhcp_collector, new_dhcpl_collector, new_dhcpv6_collector}
use mikrotik_exporter.Feature.Wireless.{new_wlanif_collector, new_wlansta_collector}
use mikrotik_exporter.Feature.Radio.{new_capsman_collector, new_lte_collector, new_w60g_collector}
use mikrotik_exporter.Feature.System.{
  new_certs_collector, new_conntrack_collector, new_firmware_collector, new_health_collector,
  new_resource_collector,
}
use mikrotik_exporter.Feature.Services.{new_cloud_collector, new_ntpc_collector}
use mikrotik_exporter.Feature.Queues.{new_queue_collector, new_service_collector}
use mikrotik_exporter.Feature.Tools.{
  new_container_collector, new_disk_collector, new_dude_collector, new_netwatch_collector,
  new_script_collector,
}
use mikrotik_exporter.Feature.Network.{
  new_dns_adlist_collector, new_dns_collector, new_interface_collector, new_ip_collector,
}
use mikrotik_exporter.Feature.Routing.{new_neighbor_collector, new_routes_collector}
use mikrotik_exporter.Feature.Security.{new_firewall_collector, new_radius_collector}
use mikrotik_exporter.Feature.Tunnels.{
  new_ipsec_collector, new_ppp_collector, new_wireguard_collector,
}
use mikrotik_exporter.Feature.Ethernet.{
  new_monitor_collector, new_optics_collector, new_poe_collector, new_switch_collector,
}

pub record RegisteredCollector (S E F : Type 0) : Type 0 where
  pub name : Bytes
  pub description : Bytes
  pub inst_func : Option (RouterOsCollector S E F)

module _ {S E F : Type 0} (x : External S E F) where
  -- The calls of the `init` functions: name, constructor, description.
  unfoldable pub inits : List (Bytes × Option (RouterOsCollector S E F) × Bytes)
  inits =
      (codes "arp", new_arp_collector x, codes "retrieves arp metrics")
      ∷ (codes "capsman", new_capsman_collector x, codes "retrieves CapsMan station metrics")
      ∷ (codes "certs", new_certs_collector x, codes "retrieves dns metrics")
      ∷ (codes "cloud", new_cloud_collector x, codes "retrieves cloud services information")
      ∷ (
        codes "conntrack",
        new_conntrack_collector x,
        codes "retrieves connection tracking information",
      )
      ∷ (codes "container", new_container_collector x, codes "retrieves container metrics")
      ∷ (codes "dhcp", new_dhcp_collector x, codes "retrieves DHCP server metrics")
      ∷ (codes "dhcpl", new_dhcpl_collector x, codes "retrieves DHCP server lease information")
      ∷ (codes "dhcpv6", new_dhcpv6_collector x, codes "retrieves DHCPv6 server metrics")
      ∷ (codes "disk", new_disk_collector x, codes "retrieves disks metrics")
      ∷ (codes "dns_adlist", new_dns_adlist_collector x, codes "retrieves dns adlist metrics")
      ∷ (codes "dns", new_dns_collector x, codes "retrieves dns metrics")
      ∷ (codes "dude", new_dude_collector x, codes "retrieves dude metrics")
      ∷ (codes "firewall", new_firewall_collector x, codes "retrieves firewall metrics")
      ∷ (codes "firmware", new_firmware_collector x, codes "retrieves firmware version")
      ∷ (codes "health", new_health_collector x, codes "retrieves board Health metrics")
      ∷ (codes "interface", new_interface_collector x, codes "retrieves interfaces metrics")
      ∷ (codes "ip", new_ip_collector x, codes "retrieves ip metrics")
      ∷ (codes "ipsec", new_ipsec_collector x, codes "retrieves IPsec metrics")
      ∷ (
        codes "ipv6_neighbor",
        new_ipv6_neighbor_collector x,
        codes "retrieves ipv6 neighbors metrics",
      )
      ∷ (codes "lte", new_lte_collector x, codes "retrieves LTE interfaces metrics")
      ∷ (
        codes "monitor",
        new_monitor_collector x,
        codes "retrieves ethernet interfaces monitor metrics",
      )
      ∷ (codes "neighbor", new_neighbor_collector x, codes "retrieves neighbor metrics")
      ∷ (codes "netwatch", new_netwatch_collector x, codes "retrieves Netwatch status")
      ∷ (codes "ntpc", new_ntpc_collector x, codes "retrieves ntp client metrics")
      ∷ (codes "optics", new_optics_collector x, codes "retrieves optical diagnostic metrics")
      ∷ (codes "poe", new_poe_collector x, codes "retrieves POE metrics")
      ∷ (codes "pools", new_pool_collector x, codes "retrieves IP pool metrics")
      ∷ (codes "ppp", new_ppp_collector x, codes "retrieves ppp active connections metrics")
      ∷ (
        codes "queue",
        new_queue_collector x,
        codes "retrieves Simple Queue and queue monitor metrics",
      )
      ∷ (codes "radius", new_radius_collector x, codes "retrieves Radius incoming metrics")
      ∷ (
        codes "resource",
        new_resource_collector x,
        codes "retrieves RouterOS system resource metrics",
      )
      ∷ (codes "routes", new_routes_collector x, codes "retrieves routing table information")
      ∷ (codes "scripts", new_script_collector x, codes "retrieves metrics from scripts")
      ∷ (codes "service", new_service_collector x, codes "retrieves service connections metrics")
      ∷ (codes "switch", new_switch_collector x, codes "retrieves switch statistics")
      ∷ (codes "w60g", new_w60g_collector x, codes "retrieves W60G interface metrics")
      ∷ (codes "wireguard", new_wireguard_collector x, codes "retrieves wireguard peers metrics")
      ∷ (codes "wlanif", new_wlanif_collector x, codes "retrieves WLAN interface metrics")
      ∷ (codes "wlansta", new_wlansta_collector x, codes "retrieves connecten WLAN station metrics")
      ∷ []

  unfoldable pub register_all :
      List (Bytes × Option (RouterOsCollector S E F) × Bytes)
      → Dict (RegisteredCollector S E F)
      → Dict (RegisteredCollector S E F)
  register_all [] registered = registered
  register_all ((name, inst_func, description) ∷ rest) registered = register_all rest (
      register_collector registered name
        (record { name = name; description = description; inst_func = inst_func }))

  -- `registeredCollectors` behind all of them.
  unfoldable pub registered_collectors : Dict (RegisteredCollector S E F)
  registered_collectors = register_all inits []

  -- `InstanateCollector`: `none` for nil.
  unfoldable pub instanate_collector : Bytes → Option (Option (RouterOsCollector S E F))
  instanate_collector name = elim (instantiate_collector registered_collectors name) [
    | none ↦ none
    | some f ↦ some f.inst_func
  ]
