-- ===== src/Feature/Tunnels.antt =====
-- ipsec_collector.go, ppp_collector.go and wireguard_collector.go of internal/collectors.
pub mod Sound
use mikrotik_exporter.Prelude.{
  ℕ, suc, ◌+◌, ◌-◌, not, ◌&&◌, Option, some, List, [], ◌∷◌, ◌++◌, map, if◌then◌else◌, length, Bytes,
  codes, equal, is_empty, value_of,
}
use mikrotik_exporter.Proto.Sentence.{Sentence}
use mikrotik_exporter.Convert.Duration.{Result}
use mikrotik_exporter.Convert.Values.{metric_from_bool, metric_from_duration, flag}
use mikrotik_exporter.Metrics.Context.{
  Desc, description, gauge_value, label_dev_name, label_dev_address, label_comment,
}
use mikrotik_exporter.Metrics.Property.{PropertyMetric, describe_list, describe}
use mikrotik_exporter.Feature.Base.{
  External, Errors, Act, Scope, RouterOsCollector, own_labels, labels_with, labels_from, pure,
  for_each, join, done_map, send_const, fetch, collect_metrics, float_of, send_ret,
}
use mikrotik_exporter.Feature.Chain.{counter, gauge, const_metric, named, converted, built, ◌>>=◌}
use mikrotik_exporter.Feature.Common.{
  is_before_7, has_details, labelled, unsupported, followed_by, collect_rows,
}

module _ {S E F : Type 0} (x : External S E F) where
  open x use {floats}

  unfoldable pub metric_from_state : Bytes → Result F
  metric_from_state value = flag floats (equal value (codes "established"))

  unfoldable pub collect_ipsec :
      List (PropertyMetric F) → List (PropertyMetric F) → Scope → Act S F (Errors E)
  collect_ipsec metrics active_peers sc =
      join
        (collect_rows x
          (codes "/ip/ipsec/policy/print"
            ∷ codes "?disabled=false"
            ∷ codes "?dynamic=false"
            ∷ codes "=.proplist=src-address,dst-address,comment,ph2-state,invalid,active"
            ∷ [])
          metrics (codes "src-address" ∷ codes "dst-address" ∷ codes "comment" ∷ []) sc)
        (collect_rows x
          (codes "/ip/ipsec/active-peers/print"
            ∷ codes
                "=.proplist=src-address,dst-address,comment,side,rx-bytes,tx-bytes,rx-packets,tx-packets,state,uptime,last-seen,responder"
            ∷ [])
          active_peers
          (codes "src-address" ∷ codes "dst-address" ∷ codes "comment" ∷ codes "side" ∷ []) sc)

  unfoldable pub new_ipsec_collector : Option (RouterOsCollector S E F)
  new_ipsec_collector = do
    let labels : List Bytes = codes "src_address" ∷ codes "dst_address" ∷ label_comment ∷ []
    let labels_peers : List Bytes =
        codes "src_address" ∷ codes "dst_address" ∷ label_comment ∷ codes "side" ∷ []
    metrics ← built floats (
        converted (metric_from_state) (gauge (codes "ipsec") (codes "ph2-state") labels)
        ∷ converted (metric_from_bool floats) (gauge (codes "ipsec") (codes "invalid") labels)
        ∷ converted (metric_from_bool floats) (gauge (codes "ipsec") (codes "active") labels)
        ∷ [])
    active_peers ← built floats (
        gauge (codes "ipsec_active_peers") (codes "rx-bytes") labels_peers
        ∷ gauge (codes "ipsec_active_peers") (codes "tx-bytes") labels_peers
        ∷ gauge (codes "ipsec_active_peers") (codes "rx-packets") labels_peers
        ∷ gauge (codes "ipsec_active_peers") (codes "tx-packets") labels_peers
        ∷ named (codes "established") (
            converted (metric_from_state)
              (gauge (codes "ipsec_active_peers") (codes "state") labels_peers))
        ∷ named (codes "uptime_seconds") (
            converted (metric_from_duration floats)
              (gauge (codes "ipsec_active_peers") (codes "uptime") labels_peers))
        ∷ named (codes "last_seen_seconds") (
            converted (metric_from_duration floats)
              (gauge (codes "ipsec_active_peers") (codes "last-seen") labels_peers))
        ∷ converted (metric_from_bool floats)
            (gauge (codes "ipsec_active_peers") (codes "responder") labels_peers)
        ∷ [])
    some (record {
      describe = describe_list metrics ++ describe_list active_peers;
      collect = collect_ipsec metrics active_peers;
    })

  -- `collectDetails` of the ppp connections.
  unfoldable pub collect_ppp_details : List (PropertyMetric F) → Desc → Scope → Act S F (Errors E)
  collect_ppp_details metrics active sc =
      fetch x (codes "/ppp/active/print" ∷ codes "=.proplist=name,service,caller-id,address" ∷ [])
        (λ reply.
          join
            (for_each reply.re (λ re. collect_metrics x metrics re.map (
              labels_from sc re.map
                (codes "name" ∷ codes "service" ∷ codes "caller-id" ∷ codes "address" ∷ []))))
            (send_const x active gauge_value (float_of x (length reply.re)) (own_labels sc)))

  -- `collectStats` of the ppp connections.
  unfoldable pub collect_ppp_stats : Desc → Scope → Act S F (Errors E)
  collect_ppp_stats active sc =
      fetch x (codes "/ppp/active/print" ∷ codes "=count-only=" ∷ [])
        (λ reply. done_map reply (send_ret x active (own_labels sc)))

  unfoldable pub collect_ppp : List (PropertyMetric F) → Desc → Scope → Act S F (Errors E)
  collect_ppp metrics active sc =
      if has_details sc then collect_ppp_details metrics active sc else collect_ppp_stats active sc

  unfoldable pub new_ppp_collector : Option (RouterOsCollector S E F)
  new_ppp_collector = do
    let label_names : List Bytes =
        codes "name" ∷ codes "service" ∷ codes "caller_id" ∷ codes "address" ∷ []
    metrics ← built floats (
        named (codes "active_peer") (const_metric (codes "ppp") (codes "address") label_names) ∷ [])
    let active =
        description (codes "ppp") (codes "active") (label_dev_name ∷ label_dev_address ∷ [])
          (codes "number of active ppp connections")
    some (record { describe = describe_list metrics; collect = collect_ppp metrics active })

  -- The peers with a key and an endpoint: never more than the peers.
  unfoldable pub connected_peers : List Sentence → ℕ
  connected_peers [] = 0
  connected_peers (re ∷ res) =
      let rest = connected_peers res in
      if not (is_empty (value_of (codes "public-key") re.map))
        && not (is_empty (value_of (codes "current-endpoint-address") re.map))
      then suc rest
      else rest

  unfoldable pub collect_wg_peers : List (PropertyMetric F) → Desc → Scope → Act S F (Errors E)
  collect_wg_peers peers peers_stats sc =
      fetch x
        (codes "/interface/wireguard/peers/print"
          ∷ codes
              "=.proplist=comment,public-key,comment,disabled,last-handshake,rx,tx,current-endpoint-address"
          ∷ [])
        (λ reply.
          let connected = connected_peers reply.re in
          followed_by
            (send_const x peers_stats gauge_value (float_of x connected)
              (labels_with sc (codes "connected" ∷ [])))
            (followed_by
              (send_const x peers_stats gauge_value (float_of x (length reply.re - connected))
                (labels_with sc (codes "waiting" ∷ [])))
              (if has_details sc
                then for_each reply.re (λ re.
                  let pub_key = value_of (codes "public-key") re.map in
                  if is_empty pub_key
                  then pure []
                  else collect_metrics x peers re.map (
                      labels_with sc (
                        pub_key
                        ∷ value_of (codes "comment") re.map
                        ∷ value_of (codes "disabled") re.map
                        ∷ [])))
                else pure [])))

  unfoldable pub collect_wg : List (PropertyMetric F) → Scope → Act S F (Errors E)
  collect_wg wg sc =
      collect_rows x
        (codes "/interface/wireguard/print"
          ∷ codes "?disabled=false"
          ∷ codes "=.proplist=comment,public-key,comment,disabled,running,name"
          ∷ [])
        wg (codes "public-key" ∷ codes "name" ∷ codes "comment" ∷ []) sc

  unfoldable pub collect_wireguard :
      List (PropertyMetric F) → List (PropertyMetric F) → Desc → Scope → Act S F (Errors E)
  collect_wireguard peers wg peers_stats sc =
      if is_before_7 sc
      then unsupported (codes "wireguard")
      else join (collect_wg wg sc) (collect_wg_peers peers peers_stats sc)

  unfoldable pub new_wireguard_collector : Option (RouterOsCollector S E F)
  new_wireguard_collector = do
    let peer_label_names : List Bytes = codes "public_key" ∷ label_comment ∷ codes "disabled" ∷ []
    let wg_label_names : List Bytes = codes "public_key" ∷ codes "wg_name" ∷ label_comment ∷ []
    peers ← built floats (
        converted (metric_from_duration floats)
          (gauge (codes "wireguard") (codes "last-handshake") peer_label_names)
        ∷ counter (codes "wireguard") (codes "rx") peer_label_names
        ∷ counter (codes "wireguard") (codes "tx") peer_label_names
        ∷ [])
    wg ← built floats (
        converted (metric_from_bool floats)
          (gauge (codes "wireguard") (codes "running") wg_label_names)
        ∷ [])
    let peers_stats =
        labelled (codes "wireguard") (codes "peers_status") (codes "wg peer statistics")
          (codes "status")
    some (record {
      describe = describe_list peers ++ (describe_list wg ++ peers_stats ∷ []);
      collect = collect_wireguard peers wg peers_stats;
    })
