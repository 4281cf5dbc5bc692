-- ===== src/Feature/Tools/Sound.antt =====
-- The collectors of Feature/Tools send what they describe, the disk entries excepted, and do not
-- panic.
use mikrotik_exporter.Prelude.{true, false, List, [], ◌∷◌, ◌++◌, ◌≡◌, refl, sym, length}
use mikrotik_exporter.Convert.Values.{metric_from_string}
use mikrotik_exporter.Metrics.Context.{Desc, description, with_labels}
use mikrotik_exporter.Metrics.Property.{PropertyMetric, describe_list, describe}
use mikrotik_exporter.Metrics.Builder.{
  new_property_gauge_metric, new_property_const_metric, with_name, with_converter, with_default,
  prepare, prepared_name, prepared_help, build_prepared, build,
}
use mikrotik_exporter.Feature.Base.{External, Scope, own_labels}
use mikrotik_exporter.Feature.Undescribed.{disk_entry}
use mikrotik_exporter.Feature.Base.Laws.{
  Good, fits, Within-self, here, there, Answers, pure-Good, for_each-Good, join-Good, done_map-Good,
}
use mikrotik_exporter.Feature.Base.Requests.{fetch-Good, collect-Good, send_value-Good, IsSound}
use mikrotik_exporter.Feature.Common.Sound.{
  if-Good, if_present-Good, configured-Good, row-Good, collect_rows-Good,
}
use mikrotik_exporter.Feature.Tools.{
  collect_script, collect_scripts, new_script_collector, collect_netwatch, new_netwatch_collector,
  collect_dude, new_dude_collector, collect_container, new_container_collector, collect_disk,
  new_disk_collector,
}

module _ {S E F : Type 0} (x : External S E F) (answers : Answers x) where
  open x use {floats}

  collect_scripts-Good :
      (metric : Desc) (more : List Desc) (sc : Scope)
      → (e : length metric.labels ≡ 3)
      → Good false (more ++ (metric ∷ [])) (collect_scripts x metric sc)
  unfolding collect_scripts collect_script with_labels
  collect_scripts-Good metric more sc e = configured-Good false _ sc _ _ (λ scripts.
      for_each-Good false _ scripts _ (λ script. fetch-Good x false _ answers _ _ (λ reply a.
        done_map-Good false _ reply _ a (λ done. if_present-Good false _ _ done _ (λ v.
          send_value-Good x false _ metric _ (metric_from_string floats v) (sym e)
            (there more Within-self))))))

  pub new_script_collector-IsSound : IsSound false [] (new_script_collector x)
  unfolding new_script_collector description
  new_script_collector-IsSound sc = collect_scripts-Good _ [] sc refl

  collect_netwatch-Good :
      (metric : List (PropertyMetric F)) (more : List Desc) (sc : Scope)
      → (f : fits 5 (describe_list metric) ≡ true)
      → Good false (more ++ (describe_list metric)) (collect_netwatch x metric sc)
  unfolding collect_netwatch
  collect_netwatch-Good metric more sc f =
      collect_rows-Good x false _ answers _ metric _ sc f (there more Within-self)

  pub new_netwatch_collector-IsSound : IsSound false [] (new_netwatch_collector x)
  unfolding new_netwatch_collector new_property_const_metric build prepare build_prepared
      describe_list describe description
  new_netwatch_collector-IsSound sc = collect_netwatch-Good _ [] sc refl

  collect_dude-Good :
      (metrics : List (PropertyMetric F)) (more : List Desc) (sc : Scope)
      → (f : fits 2 (describe_list metrics) ≡ true)
      → Good false (more ++ (describe_list metrics)) (collect_dude x metrics sc)
  unfolding collect_dude
  collect_dude-Good metrics more sc f = fetch-Good x false _ answers _ _ (λ reply a.
      for_each-Good false _ reply.re _
        (λ re. collect-Good x false _ metrics re.map (own_labels sc) f (there more Within-self)))

  pub new_dude_collector-IsSound : IsSound false [] (new_dude_collector x)
  unfolding new_dude_collector new_property_gauge_metric with_name with_converter build prepare
      build_prepared describe_list describe description
  new_dude_collector-IsSound sc = collect_dude-Good _ [] sc refl

  collect_container-Good :
      (metrics : List (PropertyMetric F)) (more : List Desc) (sc : Scope)
      → (f : fits 3 (describe_list metrics) ≡ true)
      → Good false (more ++ (describe_list metrics)) (collect_container x metrics sc)
  unfolding collect_container
  collect_container-Good metrics more sc f =
      if-Good false _ _ _ _ (pure-Good false _ _)
        (collect_rows-Good x false _ answers _ metrics _ sc f (there more Within-self))

  pub new_container_collector-IsSound : IsSound false [] (new_container_collector x)
  unfolding new_container_collector new_property_gauge_metric with_converter with_default build
      prepare build_prepared describe_list describe description
  new_container_collector-IsSound sc = collect_container-Good _ [] sc refl

  collect_disk-Good :
      (metrics entries : List (PropertyMetric F)) (more : List Desc) (sc : Scope)
      → (f : fits 5 (describe_list metrics) ≡ true) → (g : fits 10 (describe_list entries) ≡ true)
      → Good false
          (more ++ (describe_list entries ++ (describe_list metrics)))
          (collect_disk x metrics entries sc)
  unfolding collect_disk
  collect_disk-Good metrics entries more sc f g = if-Good false _ _ _ _ (pure-Good false _ _) (
      fetch-Good x false _ answers _ _ (λ reply a. for_each-Good false _ reply.re _ (λ re.
        join-Good false _ _ _
          (row-Good x false _ answers metrics re.map _ sc f
            (there more (there (describe_list entries) Within-self)))
          (row-Good x false _ answers entries re.map _ sc g
            (there more (here (describe_list metrics)))))))

  pub new_disk_collector-IsSound : IsSound false (disk_entry ∷ []) (new_disk_collector x)
  unfolding new_disk_collector new_property_gauge_metric with_name with_converter build prepare
      build_prepared describe_list describe prepared_name prepared_help description
  new_disk_collector-IsSound sc = collect_disk-Good _ _ [] sc refl refl
