-- ===== src/Feature/Tools.antt =====
-- scripts_collector.go, netwatch_collector.go, dude_collector.go, container_collector.go and
-- disk_collector.go of internal/collectors.
pub mod Sound
use mikrotik_exporter.Prelude.{
  ◌+◌, ◌&&◌, Option, some, List, [], ◌∷◌, ◌++◌, map, if◌then◌else◌, Bytes, codes, pos,
}
use mikrotik_exporter.Convert.Values.{
  metric_from_bool, metric_from_string, metric_constant_value, metric_from_running,
}
use mikrotik_exporter.Config.Version.{check_architecture}
use mikrotik_exporter.Metrics.Context.{Desc, label_comment}
use mikrotik_exporter.Metrics.Property.{PropertyMetric, describe_list, describe}
use mikrotik_exporter.Feature.Base.{
  External, Errors, Act, Scope, RouterOsCollector, own_labels, labels_with, labels_from, for_each,
  join, done_map, fetch, collect_metrics, send_value,
}
use mikrotik_exporter.Feature.Chain.{gauge, const_metric, named, converted, defaulted, built, ◌>>=◌}
use mikrotik_exporter.Feature.Common.{
  is_before, labelled, unsupported, if_present, configured, collect_rows,
}

module _ {S E F : Type 0} (x : External S E F) where
  open x use {floats}

  unfoldable pub collect_script : Desc → Scope → Bytes → Act S F (Errors E)
  collect_script metric sc script =
      fetch x (codes "/system/script/run" ∷ (codes "=number=" ++ script) ∷ []) (λ reply.
        done_map reply (λ done.
          if_present (codes "ret") done (λ v.
            send_value x metric (labels_with sc (script ∷ [])) (metric_from_string floats v))))

  unfoldable pub collect_scripts : Desc → Scope → Act S F (Errors E)
  collect_scripts metric sc =
      configured sc (codes "scripts") (λ scripts. for_each scripts (collect_script metric sc))

  unfoldable pub new_script_collector : Option (RouterOsCollector S E F)
  new_script_collector =
      let metric = labelled [] (codes "script") (codes "metrics from scripts") (codes "script") in
      some (record { describe = metric ∷ []; collect = collect_scripts metric })

  unfoldable pub collect_netwatch : List (PropertyMetric F) → Scope → Act S F (Errors E)
  collect_netwatch metric sc =
      collect_rows x
        (codes "/tool/netwatch/print"
          ∷ codes "?disabled=false"
          ∷ codes "=.proplist=host,comment,status"
          ∷ [])
        metric (codes "host" ∷ codes "comment" ∷ codes "status" ∷ []) sc

  unfoldable pub new_netwatch_collector : Option (RouterOsCollector S E F)
  new_netwatch_collector = do
    let label_names : List Bytes = codes "host" ∷ label_comment ∷ codes "status" ∷ []
    metric ← built floats (const_metric (codes "netwatch") (codes "status") label_names ∷ [])
    some (record { describe = describe_list metric; collect = collect_netwatch metric })

  unfoldable pub collect_dude : List (PropertyMetric F) → Scope → Act S F (Errors E)
  collect_dude metrics sc =
      fetch x
        (codes "/dude/print" ∷ codes "?disabled=false" ∷ codes "=.proplist=enabled,status" ∷ [])
        (λ reply. for_each reply.re (λ re. collect_metrics x metrics re.map (own_labels sc)))

  unfoldable pub new_dude_collector : Option (RouterOsCollector S E F)
  new_dude_collector = do
    metrics ← built floats (
        converted (metric_from_bool floats) (gauge (codes "dude") (codes "enabled") [])
        ∷ converted (metric_from_running floats)
            (named (codes "running") (gauge (codes "dude") (codes "status") []))
        ∷ [])
    some (record { describe = describe_list metrics; collect = collect_dude metrics })

  unfoldable pub collect_container : List (PropertyMetric F) → Scope → Act S F (Errors E)
  collect_container metrics sc =
      if is_before sc (pos 7) (pos 5)
        && check_architecture sc.device.firmware_version
            (codes "x86_64" ∷ codes "arm" ∷ codes "arm64" ∷ [])
      then unsupported (codes "container")
      else collect_rows x
          (codes "/container/print"
            ∷ codes
                "=.proplist=name,running,starting,unhealthy,stopped,stopping,healthy,memory-current,cpu-usage"
            ∷ [])
          metrics (codes "name" ∷ []) sc

  unfoldable pub new_container_collector : Option (RouterOsCollector S E F)
  new_container_collector = do
    let label_names : List Bytes = codes "name" ∷ []
    metrics ← built floats (
        converted (metric_from_bool floats)
          (defaulted (codes "false") (gauge (codes "container") (codes "running") label_names))
        ∷ converted (metric_from_bool floats)
            (defaulted (codes "false") (gauge (codes "container") (codes "starting") label_names))
        ∷ converted (metric_from_bool floats)
            (defaulted (codes "false") (gauge (codes "container") (codes "unhealthy") label_names))
        ∷ converted (metric_from_bool floats)
            (defaulted (codes "false") (gauge (codes "container") (codes "stopped") label_names))
        ∷ converted (metric_from_bool floats)
            (defaulted (codes "false") (gauge (codes "container") (codes "stopping") label_names))
        ∷ converted (metric_from_bool floats)
            (defaulted (codes "false") (gauge (codes "container") (codes "healthy") label_names))
        ∷ gauge (codes "container") (codes "memory-current") label_names
        ∷ gauge (codes "container") (codes "cpu-usage") label_names
        ∷ [])
    some (record { describe = describe_list metrics; collect = collect_container metrics })

  unfoldable pub collect_disk :
      List (PropertyMetric F) → List (PropertyMetric F) → Scope → Act S F (Errors E)
  collect_disk metrics entries sc =
      if is_before sc (pos 7) (pos 7)
      then unsupported (codes "disk")
      else fetch x
          (codes "/disk/print"
            ∷ codes "?disabled=false"
            ∷ codes
                "=.proplist=slot,type,fs-uuid,comment,size,free,mounted,mount-point,parent,fs,model,serial"
            ∷ [])
          (λ reply. for_each reply.re (λ re.
            join
              (collect_metrics x metrics re.map
                (labels_from sc re.map (codes "slot" ∷ codes "fs-uuid" ∷ codes "mount-point" ∷ [])))
              (collect_metrics x entries re.map (
                labels_from sc re.map (
                  codes "slot"
                  ∷ codes "type"
                  ∷ codes "fs-uuid"
                  ∷ codes "comment"
                  ∷ codes "parent"
                  ∷ codes "fs"
                  ∷ codes "model"
                  ∷ codes "serial"
                  ∷ [])))))

  unfoldable pub new_disk_collector : Option (RouterOsCollector S E F)
  new_disk_collector = do
    let label_names : List Bytes = codes "slot" ∷ codes "fs-uuid" ∷ codes "mount-point" ∷ []
    let entry_label_names : List Bytes =
        codes "slot"
        ∷ codes "type"
        ∷ codes "fs-uuid"
        ∷ label_comment
        ∷ codes "parent"
        ∷ codes "fs"
        ∷ codes "model"
        ∷ codes "serial"
        ∷ []
    metrics ← built floats (
        gauge (codes "disk") (codes "size") label_names
        ∷ gauge (codes "disk") (codes "free") label_names
        ∷ converted (metric_from_bool floats) (gauge (codes "disk") (codes "mounted") label_names)
        ∷ [])
    entries ← built floats (
        converted (metric_constant_value floats)
          (named (codes "entry") (gauge (codes "disk") (codes "slot") entry_label_names))
        ∷ [])
    some (record { describe = describe_list metrics; collect = collect_disk metrics entries })
