-- ===== src/Feature/Security/Sound.antt =====
-- The collectors of Feature/Security send what they describe, and do not panic.
use mikrotik_exporter.Prelude.{
  true, false, not, Option, none, some, List, [], ◌∷◌, ◌++◌, ◌≡◌, refl, Bytes, codes, is_empty, cut,
}
use mikrotik_exporter.Metrics.Context.{Desc, description, with_labels}
use mikrotik_exporter.Metrics.Property.{PropertyMetric, describe_list, describe}
use mikrotik_exporter.Metrics.Builder.{new_property_counter_metric, prepare, build_prepared, build}
use mikrotik_exporter.Feature.Base.{External, invalid_configuration, Scope, own_labels}
use mikrotik_exporter.Feature.Base.Laws.{
  Good, fits, Within-self, there, Answers, pure-Good, for_each-Good,
}
use mikrotik_exporter.Feature.Base.Requests.{fetch-Good, collect-Good, IsSound}
use mikrotik_exporter.Feature.Common.Sound.{if-Good, first_row-Good, configured-Good}
use mikrotik_exporter.Feature.Security.{
  is_firewall, collect_firewall_rows, collect_firewall_stats, collect_firewall_chain,
  collect_firewall, new_firewall_collector, collect_radius, new_radius_collector,
}

module _ {S E F : Type 0} (x : External S E F) (answers : Answers x) where
  collect_firewall_rows-Good :
      (metrics : List (PropertyMetric F)) (more : List Desc) (sc : Scope) (firewall chain : Bytes)
      → (f : fits 5 (describe_list metrics) ≡ true)
      → Good false
          (more ++ (describe_list metrics))
          (collect_firewall_rows x metrics sc firewall chain)
  unfolding collect_firewall_rows with_labels
  collect_firewall_rows-Good metrics more sc firewall chain f =
      fetch-Good x false _ answers _ _ (λ reply a. for_each-Good false _ reply.re _ (λ re.
        if-Good false _ _ _ _ (pure-Good false _ [])
          (collect-Good x false _ metrics re.map _ f (there more Within-self))))

  collect_firewall_stats-Good :
      (metrics : List (PropertyMetric F)) (more : List Desc) (sc : Scope) (firewall chain : Bytes)
      → (f : fits 5 (describe_list metrics) ≡ true)
      → Good false
          (more ++ (describe_list metrics))
          (collect_firewall_stats x metrics sc firewall chain)
  unfolding collect_firewall_stats
  collect_firewall_stats-Good metrics more sc firewall chain f =
      if-Good false _ (not (is_firewall x firewall)) _ _
        (pure-Good false _ (invalid_configuration (codes "unknown firewall") ∷ []))
        (if-Good false _ (is_empty chain) _ _
          (pure-Good false _ (invalid_configuration (codes "missing chain") ∷ []))
          (collect_firewall_rows-Good metrics more sc firewall chain f))

  collect_firewall-Good :
      (metrics : List (PropertyMetric F)) (more : List Desc) (sc : Scope)
      → (f : fits 5 (describe_list metrics) ≡ true)
      → Good false (more ++ (describe_list metrics)) (collect_firewall x metrics sc)
  unfolding collect_firewall
  collect_firewall-Good metrics more sc f =
      configured-Good false _ sc _ _
        (λ fwchains. for_each-Good false _ fwchains _ (λ fwc. chain_part (cut b',' fwc)))
    where
      chain_part :
          (parts : Option (Bytes × Bytes))
          → Good false (more ++ describe_list metrics) (collect_firewall_chain x metrics sc parts)
      chain_part none = pure-Good false _ _
      chain_part (some (fw, chain)) = collect_firewall_stats-Good metrics more sc _ _ f

  pub new_firewall_collector-IsSound : IsSound false [] (new_firewall_collector x)
  unfolding new_firewall_collector new_property_counter_metric build prepare build_prepared
      describe_list describe description
  new_firewall_collector-IsSound sc = collect_firewall-Good _ [] sc refl

  collect_radius-Good :
      (metrics : List (PropertyMetric F)) (more : List Desc) (sc : Scope)
      → (f : fits 2 (describe_list metrics) ≡ true)
      → Good false (more ++ (describe_list metrics)) (collect_radius x metrics sc)
  unfolding collect_radius
  collect_radius-Good metrics more sc f = fetch-Good x false _ answers _ _ (λ reply a.
      first_row-Good false _ reply _
        (λ m. collect-Good x false _ metrics m (own_labels sc) f (there more Within-self)))

  pub new_radius_collector-IsSound : IsSound false [] (new_radius_collector x)
  unfolding new_radius_collector new_property_counter_metric build prepare build_prepared
      describe_list describe description
  new_radius_collector-IsSound sc = collect_radius-Good _ [] sc refl
