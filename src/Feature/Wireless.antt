-- ===== src/Feature/Wireless.antt =====
-- wlanif_collector.go and wlansta_collector.go of internal/collectors.
pub mod Sound
use mikrotik_exporter.Prelude.{
  ℕ, ◌+◌, ◌&&◌, Option, none, some, List, [], ◌∷◌, ◌++◌, map, if◌then◌else◌, Bytes, codes, equal,
  is_empty, cut, split, Dict, value_of,
}
use mikrotik_exporter.Convert.Duration.{Result, ok, err, bad_float}
use mikrotik_exporter.Metrics.Context.{
  Desc, description, gauge_value, label_dev_name, label_dev_address, label_interface,
}
use mikrotik_exporter.Metrics.Property.{PropertyMetric, describe_list, describe}
use mikrotik_exporter.Feature.Base.{
  External, Errors, Act, Scope, RouterOsCollector, labels_with, pure, for_first, unless_error,
  send_const, fetch, collect_metrics, send_value,
}
use mikrotik_exporter.Feature.Chain.{gauge, rx_tx_metric, built, ◌>>=◌}
use mikrotik_exporter.Feature.Common.{followed_by, first_row, itoa, collect_rows}

module _ {S E F : Type 0} (x : External S E F) where
  open x use {floats}

  -- The frequency in front of the first `/` of a part.
  unfoldable pub part_freq : Bytes → Bytes
  part_freq part = elim (cut b'/' part) [ none ↦ part | some (freq, rest) ↦ freq ]

  abbrev pub parse_freq : Bytes → Result F
  parse_freq freq = elim (floats.parse_float freq) [ none ↦ err bad_float | some v ↦ ok v ]

  -- The loop over the parts of a channel, which ends at the first error.
  unfoldable pub collect_freqs : Desc → Scope → Bytes → ℕ → List Bytes → Act S F (Errors E)
  collect_freqs frequency_desc sc iface idx [] = pure []
  collect_freqs frequency_desc sc iface idx (part ∷ parts) =
      let freq = part_freq part in
      unless_error
        (if is_empty freq
          then pure []
          else send_value x frequency_desc (labels_with sc (iface ∷ itoa (idx + 1) ∷ []))
              (parse_freq freq))
        (collect_freqs frequency_desc sc iface (idx + 1) parts)

  -- `collectMetricForFreq`.
  unfoldable pub collect_metric_for_freq :
      Desc → Desc → Scope → Bytes → Dict Bytes → Act S F (Errors E)
  collect_metric_for_freq frequency_desc channel_desc sc iface m =
      let channel = value_of (codes "channel") m in
      let (first, others) = split b'+' channel in
      followed_by
        (send_const x channel_desc gauge_value floats.one_f (labels_with sc (iface ∷ channel ∷ [])))
        (collect_freqs frequency_desc sc iface 0 (first ∷ others))

  -- `collectForInterface` of the wireless interfaces.
  unfoldable pub collect_wlan_interface :
      List (PropertyMetric F) → Desc → Desc → Scope → Bytes → Act S F (Errors E)
  collect_wlan_interface metrics frequency_desc channel_desc sc iface =
      fetch x
        (codes "/interface/wireless/monitor"
          ∷ (codes "=numbers=" ++ iface)
          ∷ codes "=once="
          ∷ codes "=.proplist=registered-clients,noise-floor,overall-tx-ccq,channel"
          ∷ [])
        (λ reply. first_row reply (λ m.
          unless_error (collect_metrics x metrics m (labels_with sc (iface ∷ [])))
            (collect_metric_for_freq frequency_desc channel_desc sc iface m)))

  unfoldable pub collect_wlanif : List (PropertyMetric F) → Desc → Desc → Scope → Act S F (Errors E)
  collect_wlanif metrics frequency_desc channel_desc sc =
      fetch x (codes "/interface/wireless/print" ∷ codes "=.proplist=name,disabled,frequency" ∷ [])
        (λ reply. for_first reply.re (λ re.
          if equal (value_of (codes "disabled") re.map) (codes "true")
            && is_empty (value_of (codes "frequency") re.map)
          then pure []
          else collect_wlan_interface metrics frequency_desc channel_desc sc
              (value_of (codes "name") re.map)))

  unfoldable pub new_wlanif_collector : Option (RouterOsCollector S E F)
  new_wlanif_collector = do
    metrics ← built floats (
        gauge (codes "wlan_interface") (codes "registered-clients") (label_interface ∷ [])
        ∷ gauge (codes "wlan_interface") (codes "noise-floor") (label_interface ∷ [])
        ∷ gauge (codes "wlan_interface") (codes "overall-tx-ccq") (label_interface ∷ [])
        ∷ [])
    let frequency_desc =
        description (codes "wlan_interface") (codes "frequency")
          (label_dev_name ∷ label_dev_address ∷ label_interface ∷ codes "freqidx" ∷ [])
          (codes "WiFi frequency")
    let channel_desc =
        description (codes "wlan_interface") (codes "channel")
          (label_dev_name ∷ label_dev_address ∷ label_interface ∷ codes "channel" ∷ [])
          (codes "WiFi channel")
    some (record {
      describe = (frequency_desc ∷ []) ++ (describe_list metrics ++ channel_desc ∷ []);
      collect = collect_wlanif metrics frequency_desc channel_desc;
    })

  unfoldable pub collect_wlansta : List (PropertyMetric F) → Scope → Act S F (Errors E)
  collect_wlansta metrics sc =
      collect_rows x
        (codes "/interface/wireless/registration-table/print"
          ∷ codes
              "=.proplist=interface,mac-address,signal-to-noise,signal-strength,packets,bytes,frames"
          ∷ [])
        metrics (codes "interface" ∷ codes "mac-address" ∷ []) sc

  unfoldable pub new_wlansta_collector : Option (RouterOsCollector S E F)
  new_wlansta_collector = do
    let label_names : List Bytes = label_interface ∷ codes "mac_address" ∷ []
    metrics ← built floats (
        gauge (codes "wlan_station") (codes "signal-to-noise") label_names
        ∷ gauge (codes "wlan_station") (codes "signal-strength") label_names
        ∷ rx_tx_metric (codes "wlan_station") (codes "packets") label_names
        ∷ rx_tx_metric (codes "wlan_station") (codes "bytes") label_names
        ∷ rx_tx_metric (codes "wlan_station") (codes "frames") label_names
        ∷ [])
    some (record { describe = describe_list metrics; collect = collect_wlansta metrics })
