-- ===== src/Feature/Queues/Sound.antt =====
-- The collectors of Feature/Queues send what they describe, and do not panic.
use mikrotik_exporter.Prelude.{true, false, List, [], ◌∷◌, ◌++◌, ◌≡◌, refl, length}
use mikrotik_exporter.Metrics.Context.{Desc, description}
use mikrotik_exporter.Metrics.Property.{PropertyMetric, describe_list, describe}
use mikrotik_exporter.Metrics.Builder.{
  new_property_gauge_metric, new_property_rx_tx_metric, with_rx_tx_converter, prepare,
  build_prepared, build,
}
use mikrotik_exporter.Feature.Base.{External, Scope, own_labels}
use mikrotik_exporter.Feature.Base.Laws.{
  Good, fits, Within-self, here, there, Answers, pure-Good, join-Good, unless_error-Good,
}
use mikrotik_exporter.Feature.Base.Requests.{fetch-Good, collect-Good, send_counts-Good, IsSound}
use mikrotik_exporter.Feature.Common.Sound.{if-Good, first_row-Good, collect_rows-Good}
use mikrotik_exporter.Feature.Queues.{
  collect_queue_monitor, collect_queue, new_queue_collector, collect_service, new_service_collector,
}

module _ {S E F : Type 0} (x : External S E F) (answers : Answers x) where
  collect_queue-Good :
      (queued_bytes queued_packets metrics : List (PropertyMetric F)) (more : List Desc)
      (sc : Scope)
      → (f : fits 2 (describe_list queued_bytes) ≡ true)
      → (g : fits 2 (describe_list queued_packets) ≡ true)
      → (h : fits 5 (describe_list metrics) ≡ true)
      → Good false
          (more
            ++ (describe_list metrics
                ++ (describe_list queued_bytes ++ (describe_list queued_packets))))
          (collect_queue x queued_bytes queued_packets metrics sc)
  unfolding collect_queue collect_queue_monitor
  collect_queue-Good queued_bytes queued_packets metrics more sc f g h =
      join-Good false _ _ _
        (fetch-Good x false _ answers _ _ (λ reply a. first_row-Good false _ reply _ (λ m.
          unless_error-Good false _ _ _
            (collect-Good x false _ queued_bytes m (own_labels sc) f
              (there more (there (describe_list metrics) (here (describe_list queued_packets)))))
            (collect-Good x false _ queued_packets m (own_labels sc) g (
              there more (
                there (describe_list metrics) (there (describe_list queued_bytes) Within-self)))))))
        (collect_rows-Good x false _ answers _ metrics _ sc h
          (there more (here (describe_list queued_bytes ++ (describe_list queued_packets)))))

  pub new_queue_collector-IsSound : IsSound false [] (new_queue_collector x)
  unfolding new_queue_collector new_property_gauge_metric new_property_rx_tx_metric
      with_rx_tx_converter build prepare build_prepared describe_list describe description
  new_queue_collector-IsSound sc = collect_queue-Good _ _ _ [] sc refl refl refl

  collect_service-Good :
      (metrics : Desc) (more : List Desc) (sc : Scope)
      → (e : length metrics.labels ≡ 3)
      → Good false (more ++ (metrics ∷ [])) (collect_service x metrics sc)
  unfolding collect_service
  collect_service-Good metrics more sc e = if-Good false _ _ _ _ (pure-Good false _ _) (
      fetch-Good x false _ answers _ _
        (λ reply a. send_counts-Good x false _ sc metrics _ e (there more Within-self)))

  pub new_service_collector-IsSound : IsSound false [] (new_service_collector x)
  unfolding new_service_collector description
  new_service_collector-IsSound sc = collect_service-Good _ [] sc refl
