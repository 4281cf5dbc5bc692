-- ===== src/Feature/Services.antt =====
-- cloud_collector.go and ntpc.go of internal/collectors.
pub mod Sound
use mikrotik_exporter.Prelude.{
  ◌+◌, true, false, Option, none, some, List, [], ◌∷◌, ◌++◌, map, if◌then◌else◌, Bytes, codes,
  equal, is_empty, strip_prefix, Dict, value_of,
}
use mikrotik_exporter.Proto.Sentence.{Sentence}
use mikrotik_exporter.Convert.Duration.{Result, ok, err, bad_float}
use mikrotik_exporter.Convert.Values.{
  metric_from_bool, metric_from_enabled, metric_from_running, metric_from_duration, flag,
}
use mikrotik_exporter.Metrics.Property.{PropertyMetric, describe_list, describe}
use mikrotik_exporter.Feature.Base.{
  External, value_error, unexpected_response, Errors, Act, Scope, RouterOsCollector, own_labels,
  labels_with, pure, join, unless_error, fetch, collect_metrics,
}
use mikrotik_exporter.Feature.Chain.{
  gauge, const_metric, ret_metric, named, helped, converted, defaulted, built, built_one, ◌>>=◌,
}
use mikrotik_exporter.Feature.Common.{is_before_7, first_row, collect_done, set_value}

module _ {S E F : Type 0} (x : External S E F) where
  open x use {floats, thousandth}

  unfoldable pub bth_relay_status : Bytes → Result F
  bth_relay_status value =
      flag floats (elim (strip_prefix (codes "reachable") value) [ none ↦ false | some _ ↦ true ])

  -- The collection behind the test on the number of sentences.
  unfoldable pub collect_cloud_row :
      List (PropertyMetric F)
      → List (PropertyMetric F)
      → List (PropertyMetric F)
      → List (PropertyMetric F)
      → Scope
      → Dict Bytes
      → Act S F (Errors E)
  collect_cloud_row iface_status ddns_enabled bth_metrics bth_active_users sc m =
      unless_error
        (collect_metrics x iface_status m (labels_with sc (value_of (codes "status") m ∷ [])))
        (unless_error (collect_metrics x ddns_enabled m (own_labels sc)) (
          if is_before_7 sc
          then pure []
          else unless_error (collect_metrics x bth_metrics m (own_labels sc)) (
              collect_done x
                (codes "/ip/cloud/back-to-home-user/print"
                  ∷ codes "?active=true"
                  ∷ codes "=count-only="
                  ∷ [])
                bth_active_users (own_labels sc))))

  -- `k` on the only sentence of a reply.
  abbrev pub only_row : List Sentence → (Dict Bytes → Act S F (Errors E)) → Act S F (Errors E)
  only_row [] k = pure (unexpected_response ∷ [])
  only_row (re ∷ []) k = k re.map
  only_row (re ∷ r ∷ res) k = pure (unexpected_response ∷ [])

  unfoldable pub collect_cloud :
      List (PropertyMetric F)
      → List (PropertyMetric F)
      → List (PropertyMetric F)
      → List (PropertyMetric F)
      → Scope
      → Act S F (Errors E)
  collect_cloud iface_status ddns_enabled bth_metrics bth_active_users sc =
      fetch x (codes "/ip/cloud/print" ∷ []) (λ reply.
        only_row reply.re
          (collect_cloud_row iface_status ddns_enabled bth_metrics bth_active_users sc))

  unfoldable pub new_cloud_collector : Option (RouterOsCollector S E F)
  new_cloud_collector = do
    iface_status ←
        built floats (const_metric (codes "cloud") (codes "status") (codes "status" ∷ []) ∷ [])
    ddns_enabled ←
        built floats (
          converted (metric_from_bool floats) (gauge (codes "cloud") (codes "ddns-enabled") [])
          ∷ [])
    bth_metrics ← built floats (
        converted (metric_from_enabled floats)
          (named (codes "bth_vpn_enabled") (gauge (codes "cloud") (codes "back-to-home-vpn") []))
        ∷ defaulted (codes "unknown") (
            converted (metric_from_running floats)
              (named (codes "bth_vpn_running") (gauge (codes "cloud") (codes "vpn-status") [])))
        ∷ converted (bth_relay_status) (
            named (codes "bth_vpn_relay_ipv4_reachable")
              (gauge (codes "cloud") (codes "vpn-relay-ipv4-status") []))
        ∷ converted (bth_relay_status) (
            named (codes "bth_vpn_relay_ipv6_reachable")
              (gauge (codes "cloud") (codes "vpn-relay-ipv6-status") []))
        ∷ [])
    bth_active_users ← built floats (
        helped (codes "number of active bth users")
          (ret_metric (codes "cloud") (codes "bth_users") [])
        ∷ [])
    some (record {
      describe =
          describe_list iface_status
          ++ (describe_list bth_metrics ++ describe_list bth_active_users);
      collect = collect_cloud iface_status ddns_enabled bth_metrics bth_active_users;
    })

  unfoldable pub ms_to_sec_converter : Bytes → Result F
  ms_to_sec_converter input = elim (floats.parse_float input) [
    | none ↦ err bad_float
    | some value ↦ ok (thousandth value)
  ]

  unfoldable pub metric_from_ntp_status : Bytes → Result F
  metric_from_ntp_status input = flag floats (equal input (codes "synchronized"))

  abbrev pub set_offset : PropertyMetric F → Scope → Result F → Act S F (Errors E)
  set_offset offset sc (err e) = pure (value_error e ∷ [])
  set_offset offset sc (ok dur) = set_value x offset dur (own_labels sc)

  -- `collectRO6`.
  unfoldable pub collect_ro6 :
      PropertyMetric F → PropertyMetric F → PropertyMetric F → Scope → Act S F (Errors E)
  collect_ro6 enabled sync_status offset sc =
      fetch x
        (codes "/system/ntp/client/print"
          ∷ codes "=.proplist=enabled,active-server,last-adjustment"
          ∷ [])
        (λ reply. first_row reply (λ m.
          let la = value_of (codes "last-adjustment") m in
          join (collect_metrics x (enabled ∷ []) m (own_labels sc)) (
            join
              (set_value x sync_status
                (if is_empty (value_of (codes "active-server") m)
                  then floats.zero_f
                  else floats.one_f)
                (own_labels sc))
              (if is_empty la
                then pure []
                else set_offset offset sc (metric_from_duration floats la)))))

  -- `collectRO7`.
  unfoldable pub collect_ro7 :
      PropertyMetric F → PropertyMetric F → PropertyMetric F → Scope → Act S F (Errors E)
  collect_ro7 enabled sync_status offset sc =
      fetch x
        (codes "/system/ntp/client/print" ∷ codes "=.proplist=enabled,status,system-offset" ∷ [])
        (λ reply.
          first_row reply
            (λ m. collect_metrics x (enabled ∷ sync_status ∷ offset ∷ []) m (own_labels sc)))

  unfoldable pub collect_ntpc :
      PropertyMetric F → PropertyMetric F → PropertyMetric F → Scope → Act S F (Errors E)
  collect_ntpc enabled sync_status offset sc =
      if is_before_7 sc
      then collect_ro6 enabled sync_status offset sc
      else collect_ro7 enabled sync_status offset sc

  unfoldable pub new_ntpc_collector : Option (RouterOsCollector S E F)
  new_ntpc_collector = do
    enabled ←
        built_one floats
          (converted (metric_from_bool floats) (gauge (codes "ntp_client") (codes "enabled") []))
    sync_status ← built_one floats (
        converted (metric_from_ntp_status)
          (named (codes "synchronized") (gauge (codes "ntp_client") (codes "status") [])))
    offset ←
        built_one floats
          (converted (ms_to_sec_converter) (gauge (codes "ntp_client") (codes "system-offset") []))
    some (record {
      describe =
          describe_list (enabled ∷ [])
          ++ (describe_list (sync_status ∷ []) ++ describe_list (offset ∷ []));
      collect = collect_ntpc enabled sync_status offset;
    })
