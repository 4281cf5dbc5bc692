-- ===== src/Feature/Network/Sound.antt =====
-- The collectors of Feature/Network send what they describe, and do not panic.
use mikrotik_exporter.Prelude.{true, false, List, [], ◌++◌, ◌≡◌, refl}
use mikrotik_exporter.Metrics.Context.{Desc, description}
use mikrotik_exporter.Metrics.Property.{PropertyMetric, describe_list, describe}
use mikrotik_exporter.Metrics.Builder.{
  new_property_counter_metric, new_property_gauge_metric, with_name, with_converter, prepare,
  build_prepared, build,
}
use mikrotik_exporter.Feature.Base.{External, Scope, own_labels}
use mikrotik_exporter.Feature.Base.Laws.{
  Good, fits, Within-self, there, Answers, pure-Good, for_each-Good,
}
use mikrotik_exporter.Feature.Base.Requests.{fetch-Good, collect-Good, IsSound}
use mikrotik_exporter.Feature.Common.Sound.{if-Good, row-Good, collect_rows-Good}
use mikrotik_exporter.Feature.Network.{
  collect_interface, new_interface_collector, collect_ip, new_ip_collector, collect_dns,
  new_dns_collector, collect_dns_adlist, new_dns_adlist_collector,
}

module _ {S E F : Type 0} (x : External S E F) (answers : Answers x) where
  collect_interface-Good :
      (metrics : List (PropertyMetric F)) (more : List Desc) (sc : Scope)
      → (f : fits 4 (describe_list metrics) ≡ true)
      → Good false (more ++ (describe_list metrics)) (collect_interface x metrics sc)
  unfolding collect_interface
  collect_interface-Good metrics more sc f = fetch-Good x false _ answers _ _ (λ reply a.
      for_each-Good false _ reply.re _ (λ re.
        if-Good false _ _ _ _ (pure-Good false _ [])
          (row-Good x false _ answers metrics re.map _ sc f (there more Within-self))))

  pub new_interface_collector-IsSound : IsSound false [] (new_interface_collector x)
  unfolding new_interface_collector new_property_counter_metric new_property_gauge_metric
      with_converter build prepare build_prepared describe_list describe description
  new_interface_collector-IsSound sc = collect_interface-Good _ [] sc refl

  collect_ip-Good :
      (metrics : List (PropertyMetric F)) (more : List Desc) (sc : Scope)
      → (f : fits 2 (describe_list metrics) ≡ true)
      → Good false (more ++ (describe_list metrics)) (collect_ip x metrics sc)
  unfolding collect_ip
  collect_ip-Good metrics more sc f = fetch-Good x false _ answers _ _ (λ reply a.
      for_each-Good false _ reply.re _
        (λ re. collect-Good x false _ metrics re.map (own_labels sc) f (there more Within-self)))

  pub new_ip_collector-IsSound : IsSound false [] (new_ip_collector x)
  unfolding new_ip_collector new_property_counter_metric with_converter build prepare build_prepared
      describe_list describe description
  new_ip_collector-IsSound sc = collect_ip-Good _ [] sc refl

  collect_dns-Good :
      (metrics : List (PropertyMetric F)) (more : List Desc) (sc : Scope)
      → (f : fits 2 (describe_list metrics) ≡ true)
      → Good false (more ++ (describe_list metrics)) (collect_dns x metrics sc)
  unfolding collect_dns
  collect_dns-Good metrics more sc f = fetch-Good x false _ answers _ _ (λ reply a.
      for_each-Good false _ reply.re _
        (λ re. collect-Good x false _ metrics re.map (own_labels sc) f (there more Within-self)))

  pub new_dns_collector-IsSound : IsSound false [] (new_dns_collector x)
  unfolding new_dns_collector new_property_gauge_metric with_name build prepare build_prepared
      describe_list describe description
  new_dns_collector-IsSound sc = collect_dns-Good _ [] sc refl

  collect_dns_adlist-Good :
      (metrics : List (PropertyMetric F)) (more : List Desc) (sc : Scope)
      → (f : fits 3 (describe_list metrics) ≡ true)
      → Good false (more ++ (describe_list metrics)) (collect_dns_adlist x metrics sc)
  unfolding collect_dns_adlist
  collect_dns_adlist-Good metrics more sc f =
      if-Good false _ _ _ _ (pure-Good false _ _)
        (collect_rows-Good x false _ answers _ metrics _ sc f (there more Within-self))

  pub new_dns_adlist_collector-IsSound : IsSound false [] (new_dns_adlist_collector x)
  unfolding new_dns_adlist_collector new_property_counter_metric new_property_gauge_metric with_name
      build prepare build_prepared describe_list describe description
  new_dns_adlist_collector-IsSound sc = collect_dns_adlist-Good _ [] sc refl
