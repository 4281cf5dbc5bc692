-- ===== src/Feature/Tunnels/Sound.antt =====
-- The collectors of Feature/Tunnels send what they describe, the count of the ppp connections excepted,
-- and do not panic.
use mikrotik_exporter.Prelude.{true, false, List, [], ◌∷◌, ◌++◌, ◌≡◌, refl, sym, length}
use mikrotik_exporter.Metrics.Context.{Desc, description, gauge_value, with_labels}
use mikrotik_exporter.Metrics.Property.{PropertyMetric, describe_list, describe}
use mikrotik_exporter.Metrics.Builder.{
  new_property_counter_metric, new_property_gauge_metric, new_property_const_metric, with_name,
  with_converter, prepare, prepared_name, prepared_help, build_prepared, build,
}
use mikrotik_exporter.Feature.Base.{External, Scope}
use mikrotik_exporter.Feature.Undescribed.{ppp_active}
use mikrotik_exporter.Feature.Base.Laws.{
  Good, fits, Within-self, here, there, Answers, pure-Good, bind-Good, for_each-Good, join-Good,
  done_map-Good,
}
use mikrotik_exporter.Feature.Base.Requests.{
  fetch-Good, collect-Good, send_const-Good, send_ret-Good, IsSound,
}
use mikrotik_exporter.Feature.Common.Sound.{if-Good, row-Good, collect_rows-Good}
use mikrotik_exporter.Feature.Tunnels.{
  collect_ipsec, new_ipsec_collector, collect_ppp_details, collect_ppp_stats, collect_ppp,
  new_ppp_collector, collect_wg_peers, collect_wg, collect_wireguard, new_wireguard_collector,
}

module _ {S E F : Type 0} (x : External S E F) (answers : Answers x) where
  collect_ipsec-Good :
      (metrics active_peers : List (PropertyMetric F)) (more : List Desc) (sc : Scope)
      → (f : fits 5 (describe_list metrics) ≡ true)
      → (g : fits 6 (describe_list active_peers) ≡ true)
      → Good false
          (more ++ (describe_list metrics ++ (describe_list active_peers)))
          (collect_ipsec x metrics active_peers sc)
  unfolding collect_ipsec
  collect_ipsec-Good metrics active_peers more sc f g =
      join-Good false _ _ _
        (collect_rows-Good x false _ answers _ metrics _ sc f
          (there more (here (describe_list active_peers))))
        (collect_rows-Good x false _ answers _ active_peers _ sc g
          (there more (there (describe_list metrics) Within-self)))

  pub new_ipsec_collector-IsSound : IsSound false [] (new_ipsec_collector x)
  unfolding new_ipsec_collector new_property_gauge_metric with_name with_converter build prepare
      build_prepared describe_list describe description
  new_ipsec_collector-IsSound sc = collect_ipsec-Good _ _ [] sc refl refl

  collect_ppp-Good :
      (metrics : List (PropertyMetric F)) (active : Desc) (more : List Desc) (sc : Scope)
      → (f : fits 6 (describe_list metrics) ≡ true) → (e : length active.labels ≡ 2)
      → Good false
          (more ++ (active ∷ [] ++ (describe_list metrics)))
          (collect_ppp x metrics active sc)
  unfolding collect_ppp collect_ppp_details collect_ppp_stats
  collect_ppp-Good metrics active more sc f e =
      if-Good false _ _ _ _
        (fetch-Good x false _ answers _ _ (λ reply a.
          join-Good false _ _ _
            (for_each-Good false _ reply.re _ (λ re.
              row-Good x false _ answers metrics re.map _ sc f
                (there more (there (active ∷ []) Within-self))))
            (send_const-Good x false _ active gauge_value _ _ (sym e)
              (there more (here (describe_list metrics))))))
        (fetch-Good x false _ answers _ _ (λ reply a. done_map-Good false _ reply _ a (λ done.
          send_ret-Good x false _ active _ done (sym e)
            (there more (here (describe_list metrics))))))

  pub new_ppp_collector-IsSound : IsSound false (ppp_active ∷ []) (new_ppp_collector x)
  unfolding new_ppp_collector new_property_const_metric with_name build prepare build_prepared
      describe_list describe prepared_name prepared_help description
  new_ppp_collector-IsSound sc = collect_ppp-Good _ _ [] sc refl refl

  collect_wireguard-Good :
      (peers wg : List (PropertyMetric F)) (peers_stats : Desc) (more : List Desc) (sc : Scope)
      → (f : fits 5 (describe_list peers) ≡ true) → (g : fits 5 (describe_list wg) ≡ true)
      → (e : length peers_stats.labels ≡ 3)
      → Good false
          (more ++ (describe_list peers ++ (describe_list wg ++ (peers_stats ∷ []))))
          (collect_wireguard x peers wg peers_stats sc)
  unfolding collect_wireguard collect_wg collect_wg_peers with_labels
  collect_wireguard-Good peers wg peers_stats more sc f g e =
      if-Good false _ _ _ _ (pure-Good false _ _) (
        join-Good false _ _ _
          (collect_rows-Good x false _ answers _ wg _ sc g
            (there more (there (describe_list peers) (here (peers_stats ∷ [])))))
          (fetch-Good x false _ answers _ _ (λ reply a.
            bind-Good false _ _ _
              (send_const-Good x false _ peers_stats gauge_value _ _ (sym e)
                (there more (there (describe_list peers) (there (describe_list wg) Within-self))))
              (λ es.
                bind-Good false _ _ _
                  (send_const-Good x false _ peers_stats gauge_value _ _ (sym e) (
                    there more
                      (there (describe_list peers) (there (describe_list wg) Within-self))))
                  (λ fs.
                    if-Good false _ _ _ _
                      (for_each-Good false _ reply.re _ (λ re.
                        if-Good false _ _ _ _ (pure-Good false _ []) (
                          collect-Good x false _ peers re.map _ f
                            (there more (here (describe_list wg ++ (peers_stats ∷ [])))))))
                      (pure-Good false _ []))))))

  pub new_wireguard_collector-IsSound : IsSound false [] (new_wireguard_collector x)
  unfolding new_wireguard_collector new_property_counter_metric new_property_gauge_metric
      with_converter build prepare build_prepared describe_list describe description
  new_wireguard_collector-IsSound sc = collect_wireguard-Good _ _ _ [] sc refl refl refl
