-- ===== src/Feature/Leases/Sound.antt =====
-- The collectors of Feature/Leases send what they describe; the one of the leases may panic.
use mikrotik_exporter.Prelude.{
  true, false, Option, none, some, List, [], ◌∷◌, ◌++◌, ◌≡◌, refl, length, Bytes, codes, Dict,
  value_of,
}
use mikrotik_exporter.Convert.Values.{extract_property}
use mikrotik_exporter.Metrics.Context.{Desc, description, with_labels}
use mikrotik_exporter.Metrics.Property.{PropertyMetric, describe_list, describe}
use mikrotik_exporter.Metrics.Builder.{
  new_property_const_metric, new_property_ret_metric, with_name, with_help, with_converter, prepare,
  build_prepared, build,
}
use mikrotik_exporter.Feature.Base.{External, Scope}
use mikrotik_exporter.Feature.Base.Laws.{
  Good, fits, Within-self, here, there, Answers, pure-Good, bind-Good, for_each-Good, panic-Good,
}
use mikrotik_exporter.Feature.Base.Requests.{
  fetch-Good, send_counts-Good, collect_may-Good, IsSound,
}
use mikrotik_exporter.Feature.Common.{clean_host_name}
use mikrotik_exporter.Feature.Common.Sound.{if-Good, collect_done-Good}
use mikrotik_exporter.Feature.Leases.{
  collect_dhcp, new_dhcp_collector, send_lease, collect_lease, collect_dhcp_leases,
  new_dhcpl_collector, collect_dhcpv6, new_dhcpv6_collector,
}

module _ {S E F : Type 0} (x : External S E F) (answers : Answers x) where
  open x use {quote}

  collect_dhcp-Good :
      (leases : List (PropertyMetric F)) (more : List Desc) (sc : Scope)
      → (f : fits 3 (describe_list leases) ≡ true)
      → Good false (more ++ (describe_list leases)) (collect_dhcp x leases sc)
  unfolding collect_dhcp with_labels
  collect_dhcp-Good leases more sc f = fetch-Good x false _ answers _ _ (λ reply a.
      for_each-Good false _ (extract_property reply.re (codes "name")) _
        (λ n. collect_done-Good x false _ answers _ leases _ f (there more Within-self)))

  pub new_dhcp_collector-IsSound : IsSound false [] (new_dhcp_collector x)
  unfolding new_dhcp_collector new_property_ret_metric with_help with_converter build prepare
      build_prepared describe_list describe description
  new_dhcp_collector-IsSound sc = collect_dhcp-Good _ [] sc refl

  collect_dhcp_leases-Good :
      (leases : List (PropertyMetric F)) (statuses : Desc) (more : List Desc) (sc : Scope)
      → (e : length statuses.labels ≡ 3)
      → Good true
          (more ++ (describe_list leases ++ (statuses ∷ [])))
          (collect_dhcp_leases x leases statuses sc)
  unfolding collect_dhcp_leases collect_lease
  collect_dhcp_leases-Good leases statuses more sc e = fetch-Good x true _ answers _ _ (λ reply a.
      bind-Good true _ _ _
        (send_counts-Good x true _ sc statuses _ e
          (there more (there (describe_list leases) Within-self)))
        (λ es.
          if-Good true _ _ _ _
            (for_each-Good true _ reply.re _
              (λ re. lease re.map (clean_host_name quote (value_of (codes "host-name") re.map))))
            (pure-Good true _ [])))
    where
      lease :
          (m : Dict Bytes) (host_name : Option Bytes)
          → Good true
              (more ++ (describe_list leases ++ statuses ∷ []))
              (send_lease x leases sc m host_name)
      lease m none = panic-Good _
      lease m (some host_name) = collect_may-Good x _ leases m _ (there more (here (statuses ∷ [])))

  pub new_dhcpl_collector-IsSound : IsSound true [] (new_dhcpl_collector x)
  unfolding new_dhcpl_collector new_property_const_metric with_name build prepare build_prepared
      describe_list describe description
  new_dhcpl_collector-IsSound sc = collect_dhcp_leases-Good _ _ [] sc refl

  collect_dhcpv6-Good :
      (binding_count : List (PropertyMetric F)) (more : List Desc) (sc : Scope)
      → (f : fits 3 (describe_list binding_count) ≡ true)
      → Good false (more ++ (describe_list binding_count)) (collect_dhcpv6 x binding_count sc)
  unfolding collect_dhcpv6 with_labels
  collect_dhcpv6-Good binding_count more sc f = if-Good false _ _ _ _ (pure-Good false _ []) (
      fetch-Good x false _ answers _ _ (λ reply a.
        for_each-Good false _ (extract_property reply.re (codes "name")) _
          (λ n. collect_done-Good x false _ answers _ binding_count _ f (there more Within-self))))

  pub new_dhcpv6_collector-IsSound : IsSound false [] (new_dhcpv6_collector x)
  unfolding new_dhcpv6_collector new_property_ret_metric with_help build prepare build_prepared
      describe_list describe description
  new_dhcpv6_collector-IsSound sc = collect_dhcpv6-Good _ [] sc refl
