-- ===== src/Feature/Routing/Sound.antt =====
-- The collectors of Feature/Routing send what they describe, the counts of the neighbors excepted, and
-- do not panic.
use mikrotik_exporter.Prelude.{true, false, List, [], ◌∷◌, ◌++◌, ◌≡◌, refl, length, Bytes}
use mikrotik_exporter.Metrics.Context.{Desc, description, with_labels}
use mikrotik_exporter.Metrics.Property.{PropertyMetric, describe_list, describe}
use mikrotik_exporter.Metrics.Builder.{
  new_property_const_metric, new_property_ret_metric, with_name, with_help, prepare, prepared_name,
  prepared_help, build_prepared, build,
}
use mikrotik_exporter.Feature.Base.{External, Scope}
use mikrotik_exporter.Feature.Undescribed.{neighbor_stats}
use mikrotik_exporter.Feature.Base.Laws.{
  Good, fits, Within-self, here, there, Answers, pure-Good, bind-Good, for_each-Good,
  for_first-Good, join-Good, unless_error-Good,
}
use mikrotik_exporter.Feature.Base.Requests.{fetch-Good, send_counts-Good, IsSound}
use mikrotik_exporter.Feature.Common.Sound.{if-Good, row-Good, collect_done-Good}
use mikrotik_exporter.Feature.Routing.{
  collect_neighbor, new_neighbor_collector, collect_count, collect_count_protocol,
  collect_for_ip_version, collect_routes, new_routes_collector,
}

module _ {S E F : Type 0} (x : External S E F) (answers : Answers x) where
  collect_neighbor-Good :
      (metrics : List (PropertyMetric F)) (stats : Desc) (more : List Desc) (sc : Scope)
      → (f : fits 18 (describe_list metrics) ≡ true) → (e : length stats.labels ≡ 3)
      → Good false
          (more ++ (stats ∷ [] ++ (describe_list metrics)))
          (collect_neighbor x metrics stats sc)
  unfolding collect_neighbor
  collect_neighbor-Good metrics stats more sc f e = fetch-Good x false _ answers _ _ (λ reply a.
      bind-Good false _ _ _
        (send_counts-Good x false _ sc stats _ e (there more (here (describe_list metrics))))
        (λ es.
          if-Good false _ _ _ _
            (for_each-Good false _ reply.re _ (λ re.
              row-Good x false _ answers metrics re.map _ sc f
                (there more (there (stats ∷ []) Within-self))))
            (pure-Good false _ [])))

  pub new_neighbor_collector-IsSound :
      IsSound false (neighbor_stats ∷ []) (new_neighbor_collector x)
  unfolding new_neighbor_collector new_property_const_metric with_name build prepare build_prepared
      describe_list describe prepared_name prepared_help description
  new_neighbor_collector-IsSound sc = collect_neighbor-Good _ _ [] sc refl refl

  collect_for_ip_version-Good :
      (count count_protocol : List (PropertyMetric F)) (protocols : List Bytes) (more : List Desc)
      (sc : Scope) (ip_version topic : Bytes)
      → (f : fits 3 (describe_list count) ≡ true)
      → (g : fits 4 (describe_list count_protocol) ≡ true)
      → Good false
          (more ++ (describe_list count ++ (describe_list count_protocol)))
          (collect_for_ip_version x count count_protocol protocols sc ip_version topic)
  unfolding collect_for_ip_version collect_count collect_count_protocol with_labels
  collect_for_ip_version-Good count count_protocol protocols more sc ip_version topic f g =
      unless_error-Good false _ _ _
        (collect_done-Good x false _ answers _ count _ f
          (there more (here (describe_list count_protocol))))
        (for_first-Good false _ protocols _ (λ protocol.
          collect_done-Good x false _ answers _ count_protocol _ g
            (there more (there (describe_list count) Within-self))))

  collect_routes-Good :
      (count count_protocol : List (PropertyMetric F)) (protocols : List Bytes) (more : List Desc)
      (sc : Scope)
      → (f : fits 3 (describe_list count) ≡ true)
      → (g : fits 4 (describe_list count_protocol) ≡ true)
      → Good false
          (more ++ (describe_list count ++ (describe_list count_protocol)))
          (collect_routes x count count_protocol protocols sc)
  unfolding collect_routes
  collect_routes-Good count count_protocol protocols more sc f g =
      join-Good false _ _ _
        (collect_for_ip_version-Good count count_protocol protocols more sc _ _ f g)
        (if-Good false _ _ _ _ (pure-Good false _ [])
          (collect_for_ip_version-Good count count_protocol protocols more sc _ _ f g))

  pub new_routes_collector-IsSound : IsSound false [] (new_routes_collector x)
  unfolding new_routes_collector new_property_ret_metric with_help build prepare build_prepared
      describe_list describe description
  new_routes_collector-IsSound sc = collect_routes-Good _ _ _ [] sc refl refl
