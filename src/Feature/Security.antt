-- ===== src/Feature/Security.antt =====
-- firewall_collector.go and radius_collector.go of internal/collectors. The messages of invalid
-- entries of the configuration are cut to their literal front.
pub mod Sound
use mikrotik_exporter.Prelude.{
  ◌+◌, Bool, not, ◌||◌, Option, none, some, List, [], ◌∷◌, ◌++◌, map, if◌then◌else◌, Bytes, codes,
  equal, is_empty, cut, trim_space, value_of,
}
use mikrotik_exporter.Metrics.Context.{label_comment}
use mikrotik_exporter.Metrics.Property.{PropertyMetric, describe_list, describe}
use mikrotik_exporter.Feature.Base.{
  External, invalid_configuration, Errors, Act, Scope, RouterOsCollector, own_labels, labels_with,
  pure, for_each, fetch, collect_metrics,
}
use mikrotik_exporter.Feature.Chain.{counter, built, ◌>>=◌}
use mikrotik_exporter.Feature.Common.{first_row, configured}

module _ {S E F : Type 0} (x : External S E F) where
  open x use {floats}

  abbrev pub is_firewall : Bytes → Bool
  is_firewall firewall =
      equal firewall (codes "filter")
      || equal firewall (codes "mangle")
      || equal firewall (codes "raw")
      || equal firewall (codes "nat")

  -- The request of `collectStats`, and the loop over its reply.
  unfoldable pub collect_firewall_rows :
      List (PropertyMetric F) → Scope → Bytes → Bytes → Act S F (Errors E)
  collect_firewall_rows metrics sc firewall chain =
      fetch x
        ((codes "/ip/firewall/" ++ (firewall ++ codes "/print"))
          ∷ (codes "?=chain=" ++ chain)
          ∷ codes "?=disabled=true"
          ∷ codes "?#!"
          ∷ codes "=stats="
          ∷ codes "=.proplist=comment,bytes,packets"
          ∷ [])
        (λ reply. for_each reply.re (λ re.
          let comment = value_of (codes "comment") re.map in
          if is_empty comment
          then pure []
          else collect_metrics x metrics re.map (labels_with sc (firewall ∷ chain ∷ comment ∷ []))))

  -- `collectStats` of the firewall.
  unfoldable pub collect_firewall_stats :
      List (PropertyMetric F) → Scope → Bytes → Bytes → Act S F (Errors E)
  collect_firewall_stats metrics sc firewall chain =
      if not (is_firewall firewall)
      then pure (invalid_configuration (codes "unknown firewall") ∷ [])
      else if is_empty chain
      then pure (invalid_configuration (codes "missing chain") ∷ [])
      else collect_firewall_rows metrics sc firewall chain

  -- The turn of the loop over the configured chains.
  abbrev pub collect_firewall_chain :
      List (PropertyMetric F) → Scope → Option (Bytes × Bytes) → Act S F (Errors E)
  collect_firewall_chain metrics sc none = pure (invalid_configuration (codes "invalid entry") ∷ [])
  collect_firewall_chain metrics sc (some (fw, chain)) =
      collect_firewall_stats metrics sc (trim_space fw) (trim_space chain)

  unfoldable pub collect_firewall : List (PropertyMetric F) → Scope → Act S F (Errors E)
  collect_firewall metrics sc =
      configured sc (codes "sources")
        (λ fwchains. for_each fwchains (λ fwc. collect_firewall_chain metrics sc (cut b',' fwc)))

  unfoldable pub new_firewall_collector : Option (RouterOsCollector S E F)
  new_firewall_collector = do
    let label_names : List Bytes = codes "firewall" ∷ codes "chain" ∷ label_comment ∷ []
    metrics ← built floats (
        counter (codes "firewall") (codes "packets") label_names
        ∷ counter (codes "firewall") (codes "bytes") label_names
        ∷ [])
    some (record { describe = describe_list metrics; collect = collect_firewall metrics })

  unfoldable pub collect_radius : List (PropertyMetric F) → Scope → Act S F (Errors E)
  collect_radius metrics sc =
      fetch x (codes "/radius/incoming/monitor" ∷ codes "=once=" ∷ [])
        (λ reply. first_row reply (λ m. collect_metrics x metrics m (own_labels sc)))

  unfoldable pub new_radius_collector : Option (RouterOsCollector S E F)
  new_radius_collector = do
    metrics ← built floats (
        counter (codes "radius_incoming") (codes "requests") []
        ∷ counter (codes "radius_incoming") (codes "bad-requests") []
        ∷ counter (codes "radius_incoming") (codes "naks") []
        ∷ counter (codes "radius_incoming") (codes "acks") []
        ∷ [])
    some (record { describe = describe_list metrics; collect = collect_radius metrics })
