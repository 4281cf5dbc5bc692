-- ===== src/Feature/Registry/Sound.antt =====
-- Every registered collector is made without a panic; it sends metrics of its descriptions only, and
-- does not panic, with the exceptions that are listed here.
use mikrotik_exporter.Prelude.{
  Bool, Option, none, some, [], ◌∷◌, ◌≡◌, All, Bytes, contains, Dict, lookup, insert, equal,
  if◌then◌else◌, equal_iff, true, false, refl, ap, ◌∙◌,
}
use mathlib.Core.Path.{subst}
use mikrotik_exporter.Feature.Base.{External, RouterOsCollector}
use mikrotik_exporter.Feature.Base.Laws.{Answers}
use mikrotik_exporter.Feature.Base.Requests.{IsSound}
use mikrotik_exporter.Feature.Undescribed.{may_panic, undescribed}
use mikrotik_exporter.Feature.Addressing.Sound.{
  new_arp_collector-IsSound, new_ipv6_neighbor_collector-IsSound, new_pool_collector-IsSound,
}
use mikrotik_exporter.Feature.Leases.Sound.{
  new_dhcp_collector-IsSound, new_dhcpl_collector-IsSound, new_dhcpv6_collector-IsSound,
}
use mikrotik_exporter.Feature.Wireless.Sound.{
  new_wlanif_collector-IsSound, new_wlansta_collector-IsSound,
}
use mikrotik_exporter.Feature.Radio.Sound.{
  new_capsman_collector-IsSound, new_lte_collector-IsSound, new_w60g_collector-IsSound,
}
use mikrotik_exporter.Feature.System.Sound.{
  new_certs_collector-IsSound, new_conntrack_collector-IsSound, new_firmware_collector-IsSound,
  new_health_collector-IsSound, new_resource_collector-IsSound,
}
use mikrotik_exporter.Feature.Services.Sound.{
  new_cloud_collector-IsSound, new_ntpc_collector-IsSound,
}
use mikrotik_exporter.Feature.Queues.Sound.{
  new_queue_collector-IsSound, new_service_collector-IsSound,
}
use mikrotik_exporter.Feature.Tools.Sound.{
  new_container_collector-IsSound, new_disk_collector-IsSound, new_dude_collector-IsSound,
  new_netwatch_collector-IsSound, new_script_collector-IsSound,
}
use mikrotik_exporter.Feature.Network.Sound.{
  new_dns_adlist_collector-IsSound, new_dns_collector-IsSound, new_interface_collector-IsSound,
  new_ip_collector-IsSound,
}
use mikrotik_exporter.Feature.Routing.Sound.{
  new_neighbor_collector-IsSound, new_routes_collector-IsSound,
}
use mikrotik_exporter.Feature.Security.Sound.{
  new_firewall_collector-IsSound, new_radius_collector-IsSound,
}
use mikrotik_exporter.Feature.Tunnels.Sound.{
  new_ipsec_collector-IsSound, new_ppp_collector-IsSound, new_wireguard_collector-IsSound,
}
use mikrotik_exporter.Feature.Ethernet.Sound.{
  new_monitor_collector-IsSound, new_optics_collector-IsSound, new_poe_collector-IsSound,
  new_switch_collector-IsSound,
}
use mikrotik_exporter.Collector.Exporter.{register_collector, instantiate_collector}
use mikrotik_exporter.Feature.Registry.{
  RegisteredCollector, inits, register_all, registered_collectors, instanate_collector,
}

module _ {S E F : Type 0} (x : External S E F) where
  abbrev pub IsSoundEntry : Bytes × RegisteredCollector S E F → Type 0
  IsSoundEntry (name, r) = IsSound (may_panic name) (undescribed name) r.inst_func

All-lookup :
    {V : Type 0} (P : Bytes × V → Type 0) (m : Dict V) (k : Bytes) (v : V)
    → All P m
    → lookup k m ≡ some v
    → P (k, v)
unfolding lookup
All-lookup P [] k v h e = absurd (cc e)
All-lookup {V} P ((j, w) ∷ m) k v h e = go (equal j k) refl e (λ e'. All-lookup P m k v h.1 e')
  where
    go :
        (b : Bool)
        → equal j k ≡ b
        → (if b then some w else lookup k m) ≡ some v
        → (lookup k m ≡ some v → P (k, v))
        → P (k, v)
    go true f e ih = subst P (ap (λ t. (t, w)) ((equal_iff j k).0 f) ∙ ap (λ t. (k, t)) (cc e)) h.0
    go false f e ih = ih e

module _ {S E F : Type 0} (x : External S E F) (answers : Answers x) where
  registered_collectors-IsSound : All (IsSoundEntry x) (registered_collectors x)
  unfolding registered_collectors register_all inits register_collector insert lookup contains equal
  registered_collectors-IsSound = (
    new_arp_collector-IsSound x answers,
    (
      new_capsman_collector-IsSound x answers,
      (
        new_certs_collector-IsSound x answers,
        (
          new_cloud_collector-IsSound x answers,
          (
            new_conntrack_collector-IsSound x answers,
            (
              new_container_collector-IsSound x answers,
              (
                new_dhcp_collector-IsSound x answers,
                (
                  new_dhcpl_collector-IsSound x answers,
                  (
                    new_dhcpv6_collector-IsSound x answers,
                    (
                      new_disk_collector-IsSound x answers,
                      (
                        new_dns_adlist_collector-IsSound x answers,
                        (
                          new_dns_collector-IsSound x answers,
                          (
                            new_dude_collector-IsSound x answers,
                            (
                              new_firewall_collector-IsSound x answers,
                              (
                                new_firmware_collector-IsSound x answers,
                                (
                                  new_health_collector-IsSound x answers,
                                  (
                                    new_interface_collector-IsSound x answers,
                                    (
                                      new_ip_collector-IsSound x answers,
                                      (
                                        new_ipsec_collector-IsSound x answers,
                                        (
                                          new_ipv6_neighbor_collector-IsSound x answers,
                                          (
                                            new_lte_collector-IsSound x answers,
                                            (
                                              new_monitor_collector-IsSound x answers,
                                              (
                                                new_neighbor_collector-IsSound x answers,
                                                (
                                                  new_netwatch_collector-IsSound x answers,
                                                  (
                                                    new_ntpc_collector-IsSound x answers,
                                                    (
                                                      new_optics_collector-IsSound x answers,
                                                      (
                                                        new_poe_collector-IsSound x answers,
                                                        (
                                                          new_pool_collector-IsSound x answers,
                                                          (
                                                            new_ppp_collector-IsSound x answers,
                                                            (
                                                            new_queue_collector-IsSound x answers,
                                                            (
                                                            new_radius_collector-IsSound x answers,
                                                            (
                                                            new_resource_collector-IsSound x
                                                            answers,
                                                            (
                                                            new_routes_collector-IsSound x answers,
                                                            (
                                                            new_script_collector-IsSound x answers,
                                                            (
                                                            new_service_collector-IsSound x answers,
                                                            (
                                                            new_switch_collector-IsSound x answers,
                                                            (
                                                            new_w60g_collector-IsSound x answers,
                                                            (
                                                            new_wireguard_collector-IsSound x
                                                            answers,
                                                            (
                                                            new_wlanif_collector-IsSound x answers,
                                                            (
                                                            new_wlansta_collector-IsSound x answers,
                                                            tt,
                                                            ),
                                                            ),
                                                            ),
                                                            ),
                                                            ),
                                                            ),
                                                            ),
                                                            ),
                                                            ),
                                                            ),
                                                            ),
                                                          ),
                                                        ),
                                                      ),
                                                    ),
                                                  ),
                                                ),
                                              ),
                                            ),
                                          ),
                                        ),
                                      ),
                                    ),
                                  ),
                                ),
                              ),
                            ),
                          ),
                        ),
                      ),
                    ),
                  ),
                ),
              ),
            ),
          ),
        ),
      ),
    ),
  )

  -- For every name that is registered, whose answers from the client have a final sentence: the
  -- constructor does not panic, and in every scope and state the collection sends only metrics of the
  -- collector's own descriptions or of `undescribed name`, and does not panic unless
  -- `may_panic name`.
  pub instanate_collector-IsSound :
      (name : Bytes) (r : Option (RouterOsCollector S E F))
      → instanate_collector x name ≡ some r
      → IsSound (may_panic name) (undescribed name) r
  unfolding instanate_collector instantiate_collector
  instanate_collector-IsSound name r e = go (lookup name (registered_collectors x)) refl e
    where
      go :
          (o : Option (RegisteredCollector S E F))
          → lookup name (registered_collectors x) ≡ o
          → elim o [ none ↦ none | some f ↦ some f.inst_func ] ≡ some r
          → IsSound (may_panic name) (undescribed name) r
      go none f e = absurd (cc e)
      go (some c) f e =
          subst
            (λ (i : Option (RouterOsCollector S E F)).
              IsSound (may_panic name) (undescribed name) i)
            (cc e)
            (All-lookup (IsSoundEntry x) (registered_collectors x) name c
              registered_collectors-IsSound f)
