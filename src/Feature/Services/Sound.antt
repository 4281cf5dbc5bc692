-- ===== src/Feature/Services/Sound.antt =====
-- The collectors of Feature/Services send what they describe, the state of DDNS excepted, and do not
-- panic.
use mikrotik_exporter.Prelude.{
  true, false, List, [], ◌∷◌, ◌++◌, ◌≡◌, refl, Bytes, codes, Dict, value_of,
}
use mikrotik_exporter.Proto.Sentence.{Sentence}
use mikrotik_exporter.Convert.Duration.{Result, ok, err}
use mikrotik_exporter.Convert.Values.{metric_from_duration}
use mikrotik_exporter.Metrics.Context.{Desc, metric_string_cleanup, description}
use mikrotik_exporter.Metrics.Property.{PropertyMetric, describe_list, describe}
use mikrotik_exporter.Metrics.Builder.{
  new_property_gauge_metric, new_property_const_metric, new_property_ret_metric, with_name,
  with_help, with_converter, with_default, prepare, prepared_name, prepared_help, build_prepared,
  build,
}
use mikrotik_exporter.Feature.Base.{External, unexpected_response, Scope, own_labels}
use mikrotik_exporter.Feature.Undescribed.{ddns_enabled_desc}
use mikrotik_exporter.Feature.Base.Laws.{
  Good, fits, Within, Within-self, here, there, Answers, pure-Good, join-Good, unless_error-Good,
}
use mikrotik_exporter.Feature.Base.Requests.{fetch-Good, collect-Good, IsSound}
use mikrotik_exporter.Feature.Common.{is_before_7}
use mikrotik_exporter.Feature.Common.Sound.{
  if-Good, first_row-Good, collect_done-Good, labelled-Good, IsSimple, set_value-Good,
}
use mikrotik_exporter.Feature.Services.{
  collect_cloud_row, only_row, collect_cloud, new_cloud_collector, set_offset, collect_ro6,
  collect_ro7, collect_ntpc, new_ntpc_collector,
}

module _ {S E F : Type 0} (x : External S E F) (answers : Answers x) where
  open x use {floats}

  collect_cloud-Good :
      (iface_status ddns_enabled bth_metrics bth_active_users : List (PropertyMetric F))
      (more : List Desc) (sc : Scope)
      → (f : fits 3 (describe_list iface_status) ≡ true)
      → (g : fits 2 (describe_list ddns_enabled) ≡ true)
      → (h : fits 2 (describe_list bth_metrics) ≡ true)
      → (u : fits 2 (describe_list bth_active_users) ≡ true)
      → Good false
          (more
            ++ (describe_list ddns_enabled
                ++ (describe_list iface_status
                    ++ (describe_list bth_metrics ++ (describe_list bth_active_users)))))
          (collect_cloud x iface_status ddns_enabled bth_metrics bth_active_users sc)
  unfolding collect_cloud collect_cloud_row
  collect_cloud-Good iface_status ddns_enabled bth_metrics bth_active_users more sc f g h u =
      fetch-Good x false _ answers _ _ (λ reply a. only reply.re)
    where
      row :
          (m : Dict Bytes)
          → Good false
              (more
                ++ (describe_list ddns_enabled
                    ++ (describe_list iface_status
                        ++ (describe_list bth_metrics ++ (describe_list bth_active_users)))))
              (collect_cloud_row x iface_status ddns_enabled bth_metrics bth_active_users sc m)
      row m =
          unless_error-Good false _ _ _
            (labelled-Good x false _ answers iface_status m _ sc f (
              there more (
                there (describe_list ddns_enabled)
                  (here (describe_list bth_metrics ++ (describe_list bth_active_users))))))
            (unless_error-Good false _ _ _
              (collect-Good x false _ ddns_enabled m (own_labels sc) g (
                there more (
                  here (
                    describe_list iface_status
                    ++ (describe_list bth_metrics ++ (describe_list bth_active_users))))))
              (if-Good false _ (is_before_7 sc) _ _ (pure-Good false _ []) (
                unless_error-Good false _ _ _
                  (collect-Good x false _ bth_metrics m (own_labels sc) h (
                    there more (
                      there (describe_list ddns_enabled) (
                        there (describe_list iface_status)
                          (here (describe_list bth_active_users))))))
                  (collect_done-Good x false _ answers
                    (codes "/ip/cloud/back-to-home-user/print"
                      ∷ codes "?active=true"
                      ∷ codes "=count-only="
                      ∷ [])
                    bth_active_users (own_labels sc) u
                    (there more (
                      there (describe_list ddns_enabled) (
                        there (describe_list iface_status)
                          (there (describe_list bth_metrics) Within-self))))))))

      only :
          (re : List Sentence)
          → Good false
              (more
                ++ (describe_list ddns_enabled
                    ++ (describe_list iface_status
                        ++ (describe_list bth_metrics ++ (describe_list bth_active_users)))))
              (only_row x re
                (collect_cloud_row x iface_status ddns_enabled bth_metrics bth_active_users sc))
      only [] = pure-Good false _ (unexpected_response ∷ [])
      only (s ∷ []) = row s.map
      only (s ∷ t ∷ ss) = pure-Good false _ (unexpected_response ∷ [])

  pub new_cloud_collector-IsSound : IsSound false (ddns_enabled_desc ∷ []) (new_cloud_collector x)
  unfolding new_cloud_collector new_property_gauge_metric new_property_const_metric
      new_property_ret_metric with_name with_help with_converter with_default build prepare
      build_prepared describe_list describe prepared_name prepared_help description
      metric_string_cleanup
  new_cloud_collector-IsSound sc = collect_cloud-Good _ _ _ _ [] sc refl refl refl refl

  collect_ntpc-Good :
      (enabled sync_status offset : PropertyMetric F) (more : List Desc) (sc : Scope)
      → (i : IsSimple sync_status) → (j : IsSimple offset)
      → (f : fits 2 (describe_list (enabled ∷ [])) ≡ true)
      → (g : fits 2 (describe sync_status) ≡ true) → (h : fits 2 (describe offset) ≡ true)
      → (u : fits 2 (describe_list (enabled ∷ sync_status ∷ offset ∷ [])) ≡ true)
      → (w : Within (describe_list (enabled ∷ sync_status ∷ offset ∷ [])) (
          more
          ++ (describe_list (enabled ∷ [])
              ++ (describe_list (sync_status ∷ []) ++ (describe_list (offset ∷ []))))))
      → Good false
          (more
            ++ (describe_list (enabled ∷ [])
                ++ (describe_list (sync_status ∷ []) ++ (describe_list (offset ∷ [])))))
          (collect_ntpc x enabled sync_status offset sc)
  unfolding collect_ntpc collect_ro6 collect_ro7
  collect_ntpc-Good enabled sync_status offset more sc i j f g h u w =
      if-Good false _ _ _ _
        (fetch-Good x false _ answers _ _ (λ reply a. first_row-Good false _ reply _ (λ m.
          join-Good false _ _ _
            (collect-Good x false _ (enabled ∷ []) m (own_labels sc) f (
              there more
                (here (describe_list (sync_status ∷ []) ++ (describe_list (offset ∷ []))))))
            (join-Good false _ _ _
              (set_value-Good x false _ sync_status _ (own_labels sc) i g (
                there more
                  (there (describe_list (enabled ∷ [])) (here (describe_list (offset ∷ []))))))
              (if-Good false _ _ _ _ (pure-Good false _ [])
                (adjusted (metric_from_duration floats (value_of (codes "last-adjustment") m))))))))
        (fetch-Good x false _ answers _ _ (λ reply a.
          first_row-Good false _ reply _ (λ m. collect-Good x false _ _ m (own_labels sc) u w)))
    where
      adjusted :
          (r : Result F)
          → Good false
              (more
                ++ (describe_list (enabled ∷ [])
                    ++ (describe_list (sync_status ∷ []) ++ (describe_list (offset ∷ [])))))
              (set_offset x offset sc r)
      adjusted (err e) = pure-Good false _ _
      adjusted (ok dur) = set_value-Good x false _ offset dur (own_labels sc) j h (
          there more (
            there (describe_list (enabled ∷ []))
              (there (describe_list (sync_status ∷ [])) Within-self)))

  pub new_ntpc_collector-IsSound : IsSound false [] (new_ntpc_collector x)
  unfolding new_ntpc_collector new_property_gauge_metric with_name with_converter build prepare
      build_prepared describe_list describe description
  new_ntpc_collector-IsSound sc =
      collect_ntpc-Good _ _ _ [] sc tt tt refl refl refl refl Within-self
