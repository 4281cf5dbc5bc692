-- ===== src/Feature/Ethernet/Sound.antt =====
-- The collectors of Feature/Ethernet send what they describe, and do not panic.
use mikrotik_exporter.Prelude.{
  true, false, Option, none, some, List, [], ◌∷◌, ◌++◌, ◌≡◌, refl, sym, length, Bytes, ℤ,
}
use mikrotik_exporter.Convert.Numbers.{atoi}
use mikrotik_exporter.Metrics.Context.{Desc, description, counter_value, with_labels}
use mikrotik_exporter.Metrics.Property.{PropertyMetric, describe_list, describe}
use mikrotik_exporter.Metrics.Builder.{
  new_property_counter_metric, new_property_gauge_metric, with_help, with_converter, prepare,
  build_prepared, build,
}
use mikrotik_exporter.Feature.Base.{External, Scope}
use mikrotik_exporter.Feature.Base.Laws.{
  Good, fits, Within-self, here, there, Answers, pure-Good, for_each-Good, join-Good,
}
use mikrotik_exporter.Feature.Base.Requests.{fetch-Good, send_const-Good, IsSound}
use mikrotik_exporter.Feature.Common.Sound.{
  if-Good, first_row-Good, labelled-Good, collect_named-Good,
}
use mikrotik_exporter.Feature.Ethernet.{
  collect_for_monitor, collect_monitor, new_monitor_collector, collect_poe_for, collect_poe,
  new_poe_collector, collect_optics_for, collect_optics, new_optics_collector, send_stat,
  collect_switch_details, collect_switch, new_switch_collector,
}

module _ {S E F : Type 0} (x : External S E F) (answers : Answers x) where
  collect_monitor-Good :
      (metrics : List (PropertyMetric F)) (more : List Desc) (sc : Scope)
      → (f : fits 3 (describe_list metrics) ≡ true)
      → Good false (more ++ (describe_list metrics)) (collect_monitor x metrics sc)
  unfolding collect_monitor collect_for_monitor
  collect_monitor-Good metrics more sc f = fetch-Good x false _ answers _ _ (λ reply a.
      fetch-Good x false _ answers _ _ (λ reply' a'.
        for_each-Good false _ reply'.re _
          (λ e. labelled-Good x false _ answers metrics e.map _ sc f (there more Within-self))))

  pub new_monitor_collector-IsSound : IsSound false [] (new_monitor_collector x)
  unfolding new_monitor_collector new_property_gauge_metric with_converter build prepare
      build_prepared describe_list describe description
  new_monitor_collector-IsSound sc = collect_monitor-Good _ [] sc refl

  collect_poe-Good :
      (metrics : List (PropertyMetric F)) (more : List Desc) (sc : Scope)
      → (f : fits 3 (describe_list metrics) ≡ true)
      → Good false (more ++ (describe_list metrics)) (collect_poe x metrics sc)
  unfolding collect_poe collect_poe_for
  collect_poe-Good metrics more sc f = fetch-Good x false _ answers _ _ (λ reply a.
      first_row-Good false _ reply _
        (λ m. collect_named-Good x false _ answers _ metrics sc f (there more Within-self)))

  pub new_poe_collector-IsSound : IsSound false [] (new_poe_collector x)
  unfolding new_poe_collector new_property_gauge_metric with_help build prepare build_prepared
      describe_list describe description
  new_poe_collector-IsSound sc = collect_poe-Good _ [] sc refl

  collect_optics-Good :
      (metrics : List (PropertyMetric F)) (more : List Desc) (sc : Scope)
      → (f : fits 3 (describe_list metrics) ≡ true)
      → Good false (more ++ (describe_list metrics)) (collect_optics x metrics sc)
  unfolding collect_optics collect_optics_for
  collect_optics-Good metrics more sc f = fetch-Good x false _ answers _ _ (λ reply a.
      first_row-Good false _ reply _
        (λ m. collect_named-Good x false _ answers _ metrics sc f (there more Within-self)))

  pub new_optics_collector-IsSound : IsSound false [] (new_optics_collector x)
  unfolding new_optics_collector new_property_gauge_metric with_help with_converter build prepare
      build_prepared describe_list describe description
  new_optics_collector-IsSound sc = collect_optics-Good _ [] sc refl

  collect_switch-Good :
      (stats : Desc) (stats_driver : List (PropertyMetric F)) (more : List Desc) (sc : Scope)
      → (e : length stats.labels ≡ 4) → (f : fits 3 (describe_list stats_driver) ≡ true)
      → Good false
          (more ++ (stats ∷ [] ++ (describe_list stats_driver)))
          (collect_switch x stats stats_driver sc)
  unfolding collect_switch collect_switch_details with_labels
  collect_switch-Good stats stats_driver more sc e f = fetch-Good x false _ answers _ _ (λ reply a.
      for_each-Good false _ reply.re _ (λ re.
        join-Good false _ _ _
          (labelled-Good x false _ answers stats_driver re.map _ sc f
            (there more (there (stats ∷ []) Within-self)))
          (if-Good false _ _ _ _
            (for_each-Good false _ re.map _
              (λ (k, v). if-Good false _ _ _ _ (pure-Good false _ []) (stat _ k (atoi v))))
            (pure-Good false _ []))))
    where
      stat :
          (name k : Bytes) (val : Option ℤ)
          → Good false
              (more ++ (stats ∷ [] ++ describe_list stats_driver))
              (send_stat x stats sc name k val)
      stat name k none = pure-Good false _ []
      stat name k (some val) =
          send_const-Good x false _ stats counter_value _ _ (sym e)
            (there more (here (describe_list stats_driver)))

  pub new_switch_collector-IsSound : IsSound false [] (new_switch_collector x)
  unfolding new_switch_collector new_property_counter_metric build prepare build_prepared
      describe_list describe description
  new_switch_collector-IsSound sc = collect_switch-Good _ _ [] sc refl refl
