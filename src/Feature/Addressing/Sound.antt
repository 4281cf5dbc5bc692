-- ===== src/Feature/Addressing/Sound.antt =====
-- The collectors of Feature/Addressing send what they describe; the one of the IPv6 neighbors may
-- panic.
use mikrotik_exporter.Prelude.{true, false, List, [], ◌∷◌, ◌++◌, ◌≡◌, refl, length, codes}
use mikrotik_exporter.Metrics.Context.{Desc, description, with_labels}
use mikrotik_exporter.Metrics.Counter.{count_by_property}
use mikrotik_exporter.Metrics.Property.{PropertyMetric, describe_list, describe}
use mikrotik_exporter.Metrics.Builder.{
  new_property_gauge_metric, new_property_ret_metric, with_help, with_converter, prepare,
  build_prepared, build,
}
use mikrotik_exporter.Feature.Base.{External, Scope}
use mikrotik_exporter.Feature.Base.Laws.{
  Good, fits, Within, Within-self, here, there, Answers, pure-Good, bind-Good, for_each-Good,
  for_first-Good, join-Good,
}
use mikrotik_exporter.Feature.Base.Requests.{
  fetch-Good, collect-Good, send_counts-Good, collect_may-Good, IsSound,
}
use mikrotik_exporter.Feature.Common.{collect_rows}
use mikrotik_exporter.Feature.Common.Sound.{
  if-Good, row-Good, collect_done-Good, collect_statuses-Good,
}
use mikrotik_exporter.Feature.Addressing.{
  collect_arp_entries, collect_arp, new_arp_collector, collect_pools_ipv4, collect_pools_ipv6,
  collect_pools, new_pool_collector, collect_ipv6_neighbor, new_ipv6_neighbor_collector,
}

module _ {S E F : Type 0} (x : External S E F) (answers : Answers x) where
  collect_arp-Good :
      (metrics : List (PropertyMetric F)) (statuses : Desc) (invalid : List (PropertyMetric F))
      (more : List Desc) (sc : Scope)
      → (f : fits 8 (describe_list metrics) ≡ true) → (e : length statuses.labels ≡ 3)
      → (g : fits 2 (describe_list invalid) ≡ true)
      → Good false
          (more ++ (describe_list metrics ++ (statuses ∷ [] ++ (describe_list invalid))))
          (collect_arp x metrics statuses invalid sc)
  unfolding collect_arp collect_arp_entries
  collect_arp-Good metrics statuses invalid more sc f e g =
      join-Good false _ _ _
        (fetch-Good x false _ answers _ _ (λ reply a.
          bind-Good false _ _ _
            (send_counts-Good x false _ sc statuses _ e
              (there more (there (describe_list metrics) (here (describe_list invalid)))))
            (λ es.
              if-Good false _ _ _ _
                (for_each-Good false _ reply.re _ (λ re.
                  row-Good x false _ answers metrics re.map _ sc f
                    (there more (here (statuses ∷ [] ++ (describe_list invalid))))))
                (pure-Good false _ []))))
        (join-Good false _ _ _
          (collect_statuses-Good x false _ answers _ statuses _ sc e
            (there more (there (describe_list metrics) (here (describe_list invalid)))))
          (collect_done-Good x false _ answers _ invalid _ g
            (there more (there (describe_list metrics) (there (statuses ∷ []) Within-self)))))

  pub new_arp_collector-IsSound : IsSound false [] (new_arp_collector x)
  unfolding new_arp_collector new_property_gauge_metric new_property_ret_metric with_converter build
      prepare build_prepared describe_list describe description
  new_arp_collector-IsSound sc = collect_arp-Good _ _ _ [] sc refl refl refl

  collect_pools-Good :
      (first_metric : PropertyMetric F) (others : List (PropertyMetric F)) (more : List Desc)
      (sc : Scope)
      → (f : fits 4 (describe_list (first_metric ∷ [])) ≡ true)
      → (g : fits 4 (describe_list (first_metric ∷ others)) ≡ true)
      → (w : Within
          (describe_list (first_metric ∷ others))
          (more ++ (describe_list (first_metric ∷ []) ++ describe_list others)))
      → Good false
          (more ++ (describe_list (first_metric ∷ []) ++ (describe_list others)))
          (collect_pools x first_metric others sc)
  unfolding collect_pools collect_pools_ipv4 collect_pools_ipv6 with_labels
  collect_pools-Good first_metric others more sc f g w =
      join-Good false _ _ _
        (fetch-Good x false _ answers _ _ (λ reply a.
          for_each-Good false _ reply.re _
            (λ re. collect-Good x false _ (first_metric ∷ others) re.map _ g w)))
        (if-Good false _ _ _ _ (pure-Good false _ []) (
          fetch-Good x false _ answers _ _ (λ reply a.
            for_first-Good false _ (count_by_property reply.re (codes "pool")) _ (λ (pool, used).
              collect-Good x false _ (first_metric ∷ []) _ _ f
                (there more (here (describe_list others)))))))

  pub new_pool_collector-IsSound : IsSound false [] (new_pool_collector x)
  unfolding new_pool_collector new_property_gauge_metric with_help build prepare build_prepared
      describe_list describe description
  new_pool_collector-IsSound sc = collect_pools-Good _ _ [] sc refl refl Within-self

  collect_ipv6_neighbor-Good :
      (metrics : List (PropertyMetric F)) (statuses : Desc) (more : List Desc) (sc : Scope)
      → (e : length statuses.labels ≡ 3)
      → Good true
          (more ++ (describe_list metrics ++ (statuses ∷ [])))
          (collect_ipv6_neighbor x metrics statuses sc)
  unfolding collect_ipv6_neighbor collect_rows
  collect_ipv6_neighbor-Good metrics statuses more sc e =
      if-Good true _ _ _ _ (pure-Good true _ []) (
        join-Good true _ _ _
          (if-Good true _ _ _ _
            (fetch-Good x true _ answers _ _ (λ reply a.
              for_each-Good true _ reply.re _
                (λ re. collect_may-Good x _ metrics re.map _ (there more (here (statuses ∷ []))))))
            (pure-Good true _ []))
          (collect_statuses-Good x true _ answers _ statuses _ sc e
            (there more (there (describe_list metrics) Within-self))))

  pub new_ipv6_neighbor_collector-IsSound : IsSound true [] (new_ipv6_neighbor_collector x)
  unfolding new_ipv6_neighbor_collector new_property_gauge_metric with_converter build prepare
      build_prepared describe_list describe description
  new_ipv6_neighbor_collector-IsSound sc = collect_ipv6_neighbor-Good _ _ [] sc refl
