-- ===== src/Feature/System/Sound.antt =====
-- The collectors of Feature/System send what they describe, and do not panic.
use mikrotik_exporter.Prelude.{
  true, false, Option, none, some, List, [], ◌∷◌, ◌++◌, ◌≡◌, refl, sym, length, Bytes, Dict,
}
use mikrotik_exporter.Metrics.Context.{Desc, description, gauge_value, with_labels}
use mikrotik_exporter.Metrics.Property.{PropertyMetric, describe_list, describe}
use mikrotik_exporter.Metrics.Builder.{
  new_property_counter_metric, new_property_gauge_metric, with_name, with_help, with_converter,
  prepare, build_prepared, build,
}
use mikrotik_exporter.Feature.Base.{External, Scope, own_labels}
use mikrotik_exporter.Feature.Base.Laws.{
  Good, fits, Within-self, here, there, Answers, pure-Good, bind-Good, for_each-Good, join-Good,
}
use mikrotik_exporter.Feature.Base.Requests.{fetch-Good, collect-Good, send_const-Good, IsSound}
use mikrotik_exporter.Feature.Common.Sound.{first_row-Good, collect_rows-Good}
use mikrotik_exporter.Feature.System.{
  health_row, health_body, collect_health, new_health_collector, collect_firmware,
  new_firmware_collector, collect_conntrack, new_conntrack_collector, collect_for_stat,
  collect_resource, new_resource_collector, collect_certs, new_certs_collector,
}

module _ {S E F : Type 0} (x : External S E F) (answers : Answers x) where
  open x use {floats}

  collect_health-Good :
      (metrics : List (PropertyMetric F)) (more : List Desc) (sc : Scope)
      → (f : fits 2 (describe_list metrics) ≡ true)
      → Good false (more ++ (describe_list metrics)) (collect_health x metrics sc)
  unfolding collect_health
  collect_health-Good metrics more sc f =
      fetch-Good x false _ answers _ _
        (λ reply a. for_each-Good false _ reply.re _ (λ re. body (health_row x re.map)))
    where
      body :
          (row : Option (Dict Bytes))
          → Good false (more ++ describe_list metrics) (health_body x metrics sc row)
      body none = pure-Good false _ []
      body (some row) =
          collect-Good x false _ metrics row (own_labels sc) f (there more Within-self)

  pub new_health_collector-IsSound : IsSound false [] (new_health_collector x)
  unfolding new_health_collector new_property_gauge_metric with_help build prepare build_prepared
      describe_list describe description
  new_health_collector-IsSound sc = collect_health-Good _ [] sc refl

  collect_firmware-Good :
      (metric : List (PropertyMetric F)) (more : List Desc) (sc : Scope)
      → (f : fits 5 (describe_list metric) ≡ true)
      → Good false (more ++ (describe_list metric)) (collect_firmware x metric sc)
  unfolding collect_firmware
  collect_firmware-Good metric more sc f =
      collect_rows-Good x false _ answers _ metric _ sc f (there more Within-self)

  pub new_firmware_collector-IsSound : IsSound false [] (new_firmware_collector x)
  unfolding new_firmware_collector new_property_gauge_metric with_name with_converter build prepare
      build_prepared describe_list describe description
  new_firmware_collector-IsSound sc = collect_firmware-Good _ [] sc refl

  collect_conntrack-Good :
      (total_entries max_entries : List (PropertyMetric F)) (more : List Desc) (sc : Scope)
      → (f : fits 2 (describe_list total_entries) ≡ true)
      → (g : fits 2 (describe_list max_entries) ≡ true)
      → Good false
          (more ++ (describe_list total_entries ++ (describe_list max_entries)))
          (collect_conntrack x total_entries max_entries sc)
  unfolding collect_conntrack
  collect_conntrack-Good total_entries max_entries more sc f g =
      fetch-Good x false _ answers _ _ (λ reply a. first_row-Good false _ reply _ (λ m.
        join-Good false _ _ _
          (collect-Good x false _ total_entries m (own_labels sc) f
            (there more (here (describe_list max_entries))))
          (collect-Good x false _ max_entries m (own_labels sc) g
            (there more (there (describe_list total_entries) Within-self)))))

  pub new_conntrack_collector-IsSound : IsSound false [] (new_conntrack_collector x)
  unfolding new_conntrack_collector new_property_gauge_metric with_help build prepare build_prepared
      describe_list describe description
  new_conntrack_collector-IsSound sc = collect_conntrack-Good _ _ [] sc refl refl

  collect_resource-Good :
      (metrics : List (PropertyMetric F)) (version_desc : Desc) (more : List Desc) (sc : Scope)
      → (f : fits 2 (describe_list metrics) ≡ true) → (e : length version_desc.labels ≡ 5)
      → Good false
          (more ++ (describe_list metrics ++ (version_desc ∷ [])))
          (collect_resource x metrics version_desc sc)
  unfolding collect_resource collect_for_stat with_labels
  collect_resource-Good metrics version_desc more sc f e =
      fetch-Good x false _ answers _ _ (λ reply a. for_each-Good false _ reply.re _ (λ re.
        bind-Good false _ _ _
          (send_const-Good x false _ version_desc gauge_value floats.one_f _ (sym e)
            (there more (there (describe_list metrics) Within-self)))
          (λ es.
            collect-Good x false _ metrics re.map (own_labels sc) f
              (there more (here (version_desc ∷ []))))))

  pub new_resource_collector-IsSound : IsSound false [] (new_resource_collector x)
  unfolding new_resource_collector new_property_counter_metric new_property_gauge_metric with_name
      with_converter build prepare build_prepared describe_list describe description
  new_resource_collector-IsSound sc = collect_resource-Good _ _ [] sc refl refl

  collect_certs-Good :
      (metrics : List (PropertyMetric F)) (more : List Desc) (sc : Scope)
      → (f : fits 6 (describe_list metrics) ≡ true)
      → Good false (more ++ (describe_list metrics)) (collect_certs x metrics sc)
  unfolding collect_certs
  collect_certs-Good metrics more sc f =
      collect_rows-Good x false _ answers _ metrics _ sc f (there more Within-self)

  pub new_certs_collector-IsSound : IsSound false [] (new_certs_collector x)
  unfolding new_certs_collector new_property_gauge_metric with_converter build prepare
      build_prepared describe_list describe description
  new_certs_collector-IsSound sc = collect_certs-Good _ [] sc refl
