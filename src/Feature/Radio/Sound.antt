-- ===== src/Feature/Radio/Sound.antt =====
-- The collectors of Feature/Radio send what they describe; the one of LTE may panic.
use mikrotik_exporter.Prelude.{
  true, false, Option, none, some, List, [], ◌++◌, ◌≡◌, refl, Bytes, codes, Dict, value_of,
}
use mikrotik_exporter.Convert.Values.{extract_property}
use mikrotik_exporter.Metrics.Context.{
  Desc, description, append_labels_from_map, with_labels_from_map, labels_from_map,
}
use mikrotik_exporter.Metrics.Property.{PropertyMetric, describe_list, describe}
use mikrotik_exporter.Metrics.Builder.{
  new_property_counter_metric, new_property_gauge_metric, new_property_rx_tx_metric,
  new_property_const_metric, with_name, with_help, with_converter, prepare, build_prepared, build,
}
use mikrotik_exporter.Feature.Base.{External, Scope}
use mikrotik_exporter.Feature.Base.Laws.{
  Good, fits, Within-self, here, there, Answers, pure-Good, for_each-Good, join-Good, panic-Good,
}
use mikrotik_exporter.Feature.Base.Requests.{fetch-Good, collect-Good, collect_may-Good, IsSound}
use mikrotik_exporter.Feature.Common.Sound.{
  if-Good, first_row-Good, collect_rows-Good, collect_named-Good,
}
use mikrotik_exporter.Feature.Radio.{
  collect_registrations, collect_capsman_interfaces, collect_radios_provisioned, collect_capsman,
  new_capsman_collector, primary_band, send_lte, collect_lte_for, collect_lte, new_lte_collector,
  collect_w60g_for, collect_w60g, new_w60g_collector,
}

module _ {S E F : Type 0} (x : External S E F) (answers : Answers x) where
  collect_capsman-Good :
      (stations interfaces interfaces_status radios : List (PropertyMetric F)) (more : List Desc)
      (sc : Scope)
      → (f : fits 7 (describe_list stations) ≡ true)
      → (g : fits 6 (describe_list interfaces) ≡ true)
      → (h : fits 7 (describe_list interfaces_status) ≡ true)
      → (u : fits 6 (describe_list radios) ≡ true)
      → Good false
          (more
            ++ (describe_list radios
                ++ (describe_list interfaces
                    ++ (describe_list interfaces_status ++ (describe_list stations)))))
          (collect_capsman x stations interfaces interfaces_status radios sc)
  unfolding collect_capsman collect_registrations collect_capsman_interfaces
      collect_radios_provisioned with_labels_from_map append_labels_from_map labels_from_map
  collect_capsman-Good stations interfaces interfaces_status radios more sc f g h u =
      join-Good false _ _ _
        (if-Good false _ _ _ _ (pure-Good false _ []) (
          collect_rows-Good x false _ answers _ stations _ sc f (
            there more (
              there (describe_list radios) (
                there (describe_list interfaces)
                  (there (describe_list interfaces_status) Within-self))))))
        (join-Good false _ _ _
          (fetch-Good x false _ answers _ _ (λ reply a. for_each-Good false _ reply.re _ (λ re.
            join-Good false _ _ _
              (collect-Good x false _ interfaces re.map _ g (
                there more (
                  there (describe_list radios)
                    (here (describe_list interfaces_status ++ (describe_list stations))))))
              (collect-Good x false _ interfaces_status re.map _ h (
                there more (
                  there (describe_list radios)
                    (there (describe_list interfaces) (here (describe_list stations)))))))))
          (collect_rows-Good x false _ answers _ radios _ sc u (
            there more (
              here (
                describe_list interfaces
                ++ (describe_list interfaces_status ++ (describe_list stations)))))))

  pub new_capsman_collector-IsSound : IsSound false [] (new_capsman_collector x)
  unfolding new_capsman_collector new_property_counter_metric new_property_gauge_metric
      new_property_rx_tx_metric new_property_const_metric with_name with_help with_converter build
      prepare build_prepared describe_list describe description
  new_capsman_collector-IsSound sc = collect_capsman-Good _ _ _ _ [] sc refl refl refl refl

  collect_lte-Good :
      (metrics : List (PropertyMetric F)) (more : List Desc) (sc : Scope)
      → Good true (more ++ (describe_list metrics)) (collect_lte x metrics sc)
  unfolding collect_lte collect_lte_for
  collect_lte-Good metrics more sc = fetch-Good x true _ answers _ _ (λ reply a.
      for_each-Good true _ (extract_property reply.re (codes "name")) _ (λ iface.
        fetch-Good x true _ answers _ _ (λ reply' a'.
          first_row-Good true _ reply' _
            (λ m. banded iface m (primary_band x (value_of (codes "primary-band") m))))))
    where
      banded :
          (iface : Bytes) (m : Dict Bytes) (band : Option Bytes)
          → Good true (more ++ describe_list metrics) (send_lte x metrics sc iface m band)
      banded iface m none = panic-Good _
      banded iface m (some band) = collect_may-Good x _ metrics m _ (there more Within-self)

  pub new_lte_collector-IsSound : IsSound true [] (new_lte_collector x)
  unfolding new_lte_collector new_property_gauge_metric with_name with_converter build prepare
      build_prepared describe_list describe description
  new_lte_collector-IsSound sc = collect_lte-Good _ [] sc

  collect_w60g-Good :
      (metrics : List (PropertyMetric F)) (more : List Desc) (sc : Scope)
      → (f : fits 3 (describe_list metrics) ≡ true)
      → Good false (more ++ (describe_list metrics)) (collect_w60g x metrics sc)
  unfolding collect_w60g collect_w60g_for
  collect_w60g-Good metrics more sc f = fetch-Good x false _ answers _ _ (λ reply a.
      first_row-Good false _ reply _
        (λ m. collect_named-Good x false _ answers _ metrics sc f (there more Within-self)))

  pub new_w60g_collector-IsSound : IsSound false [] (new_w60g_collector x)
  unfolding new_w60g_collector new_property_gauge_metric build prepare build_prepared describe_list
      describe description
  new_w60g_collector-IsSound sc = collect_w60g-Good _ [] sc refl
