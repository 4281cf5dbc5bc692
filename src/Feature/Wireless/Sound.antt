-- ===== src/Feature/Wireless/Sound.antt =====
-- The collectors of Feature/Wireless send what they describe, and do not panic.
use mikrotik_exporter.Prelude.{
  ℕ, ◌+◌, true, false, List, [], ◌∷◌, ◌++◌, ◌≡◌, refl, sym, length, Bytes,
}
use mikrotik_exporter.Metrics.Context.{Desc, description, gauge_value, with_labels}
use mikrotik_exporter.Metrics.Property.{PropertyMetric, describe_list, describe}
use mikrotik_exporter.Metrics.Builder.{
  new_property_gauge_metric, new_property_rx_tx_metric, prepare, build_prepared, build,
}
use mikrotik_exporter.Feature.Base.{External, Scope}
use mikrotik_exporter.Feature.Base.Laws.{
  Good, fits, Within, Within-self, here, there, Answers, pure-Good, bind-Good, for_first-Good,
  unless_error-Good,
}
use mikrotik_exporter.Feature.Base.Requests.{
  fetch-Good, collect-Good, send_const-Good, send_value-Good, IsSound,
}
use mikrotik_exporter.Feature.Common.Sound.{if-Good, first_row-Good, collect_rows-Good}
use mikrotik_exporter.Feature.Wireless.{
  part_freq, parse_freq, collect_freqs, collect_metric_for_freq, collect_wlan_interface,
  collect_wlanif, new_wlanif_collector, collect_wlansta, new_wlansta_collector,
}

module _ {S E F : Type 0} (x : External S E F) (answers : Answers x) where
  collect_freqs-Good :
      (ds : List Desc) (frequency_desc : Desc) (sc : Scope) (iface : Bytes) (idx : ℕ)
      (parts : List Bytes)
      → length frequency_desc.labels ≡ 4
      → Within (frequency_desc ∷ []) ds
      → Good false ds (collect_freqs x frequency_desc sc iface idx parts)
  unfolding collect_freqs with_labels
  collect_freqs-Good ds frequency_desc sc iface idx [] e w = pure-Good false ds []
  collect_freqs-Good ds frequency_desc sc iface idx (part ∷ parts) e w =
      unless_error-Good false ds _ _
        (if-Good false ds _ _ _ (pure-Good false ds [])
          (send_value-Good x false ds frequency_desc _ (parse_freq x (part_freq x part)) (sym e) w))
        (collect_freqs-Good ds frequency_desc sc iface (idx + 1) parts e w)

  collect_wlanif-Good :
      (metrics : List (PropertyMetric F)) (frequency_desc channel_desc : Desc) (more : List Desc)
      (sc : Scope)
      → (f : fits 3 (describe_list metrics) ≡ true) → (e : length frequency_desc.labels ≡ 4)
      → (g : length channel_desc.labels ≡ 4)
      → Good false
          (more ++ (frequency_desc ∷ [] ++ (describe_list metrics ++ (channel_desc ∷ []))))
          (collect_wlanif x metrics frequency_desc channel_desc sc)
  unfolding collect_wlanif collect_wlan_interface collect_metric_for_freq with_labels
  collect_wlanif-Good metrics frequency_desc channel_desc more sc f e g =
      fetch-Good x false _ answers _ _ (λ reply a. for_first-Good false _ reply.re _ (λ re.
        if-Good false _ _ _ _ (pure-Good false _ []) (
          fetch-Good x false _ answers _ _ (λ reply' a'. first_row-Good false _ reply' _ (λ m.
            unless_error-Good false _ _ _
              (collect-Good x false _ metrics m _ f
                (there more (there (frequency_desc ∷ []) (here (channel_desc ∷ [])))))
              (bind-Good false _ _ _
                (send_const-Good x false _ channel_desc gauge_value _ _ (sym g) (
                  there more
                    (there (frequency_desc ∷ []) (there (describe_list metrics) Within-self))))
                (λ es.
                  collect_freqs-Good _ frequency_desc sc _ 0 _ e
                    (there more (here (describe_list metrics ++ (channel_desc ∷ [])))))))))))

  pub new_wlanif_collector-IsSound : IsSound false [] (new_wlanif_collector x)
  unfolding new_wlanif_collector new_property_gauge_metric build prepare build_prepared
      describe_list describe description
  new_wlanif_collector-IsSound sc = collect_wlanif-Good _ _ _ [] sc refl refl refl

  collect_wlansta-Good :
      (metrics : List (PropertyMetric F)) (more : List Desc) (sc : Scope)
      → (f : fits 4 (describe_list metrics) ≡ true)
      → Good false (more ++ (describe_list metrics)) (collect_wlansta x metrics sc)
  unfolding collect_wlansta
  collect_wlansta-Good metrics more sc f =
      collect_rows-Good x false _ answers _ metrics _ sc f (there more Within-self)

  pub new_wlansta_collector-IsSound : IsSound false [] (new_wlansta_collector x)
  unfolding new_wlansta_collector new_property_gauge_metric new_property_rx_tx_metric build prepare
      build_prepared describe_list describe description
  new_wlansta_collector-IsSound sc = collect_wlansta-Good _ [] sc refl
