-- ===== src/Feature/Base/Requests.antt =====
-- Requests and metrics of the collectors: what they send and when they panic.
use mikrotik_exporter.Prelude.{
  ℕ, Bool, true, Option, none, some, List, [], ◌∷◌, ◌++◌, ◌≡◌, refl, sym, ◌∙◌, ap, inl, length, All,
  Bytes, Dict,
}
use mikrotik_exporter.Client.Reply.{Reply}
use mikrotik_exporter.Client.Reply.Total.{HasDone}
use mikrotik_exporter.Convert.Duration.{Result, ok, err}
use mikrotik_exporter.Metrics.Context.{Desc, Metric, ValueType, gauge_value, with_labels}
use mikrotik_exporter.Metrics.Property.{PropertyMetric, describe_list, collect_list}
use mikrotik_exporter.Metrics.Property.Labels.{Listed, Described, collect_list-Described, All-mono}
use mikrotik_exporter.Feature.Base.{
  Response, refused, answered, fetch_error, value_error, External, Errors, Act, Scope,
  RouterOsCollector, labels_with, pure, send, send_all, send_const, fetch, collect_metrics,
  property_errors, float_of, send_counts, send_value, send_ret,
}
use mikrotik_exporter.Feature.Base.Laws.{
  Good, Returns, fits, fits-Listed, Within, IsAnswer, Answers, Returns-some, pure-Good, bind-Good,
  send-Good, send_all-Good, send_all_may-Good,
}

module _ {S E F : Type 0} (x : External S E F) (may : Bool) (ds : List Desc) where
  open x use {floats, ask}

  pub fetch-Good :
      (answers : Answers x) (words : List Bytes) (k : Reply → Act S F (Errors E))
      → ((reply : Reply) → HasDone reply.done → Good may ds (k reply))
      → Good may ds (fetch x words k)
  unfolding fetch
  fetch-Good answers words k h = record {
    runs = λ s. go (ask s words).0 (ask s words).1 (answers s words);
  }
    where
      go :
          (s' : S) (r : Response E)
          → IsAnswer r
          → let out : Option (Errors E) × S × List (Metric F) = elim r [
            | refused e ↦ (some (fetch_error e ∷ []), s', [])
            | answered reply ↦ k reply s'
          ] in
            Returns may out.0 × All (λ (y : Metric F). Listed y.desc ds) out.2
      go s' (refused e) a = (Returns-some may (fetch_error e ∷ []), tt)
      go s' (answered reply) a = (h reply a).runs s'

  pub collect-Good :
      (ms : List (PropertyMetric F)) (reply : Dict Bytes) (labels : List Bytes)
      → fits (length labels) (describe_list ms) ≡ true
      → Within (describe_list ms) ds
      → Good may ds (collect_metrics x ms reply labels)
  unfolding collect_metrics
  collect-Good ms reply labels f w =
      let out = collect_list floats ms reply labels in
      bind-Good may ds (send_all out.0) (λ u. pure (property_errors out.1))
        (send_all-Good may ds out.0 (
          All-mono (Described floats (describe_list ms) labels) _ out.0
            (λ m h. (
              ap length h.1 ∙ sym (fits-Listed (length labels) (describe_list ms) m.desc f h.0),
              w.at m.desc h.0,
            ))
            (collect_list-Described floats ms reply labels)))
        (λ u. pure-Good may ds (property_errors out.1))

  pub send_const-Good :
      (desc : Desc) (ty : ValueType) (value : F) (labels : List Bytes)
      → length labels ≡ length desc.labels
      → Within (desc ∷ []) ds
      → Good may ds (send_const x desc ty value labels)
  send_const-Good desc ty value labels e l =
      bind-Good may ds (send _) (λ u. pure []) (send-Good may ds _ e (l.at desc (inl refl)))
        (λ u. pure-Good may ds [])

  pub send_counts-Good :
      (sc : Scope) (desc : Desc) (counter : Dict ℕ)
      → length desc.labels ≡ 3
      → Within (desc ∷ []) ds
      → Good may ds (send_counts x sc desc counter)
  unfolding send_counts
  send_counts-Good sc desc [] e l = pure-Good may ds []
  send_counts-Good sc desc ((key, count) ∷ counter) e l =
      bind-Good may ds
        (send_const x desc gauge_value (float_of x count) (labels_with sc (key ∷ []))) _
        (send_const-Good desc gauge_value (float_of x count) _ (unfold with_labels in sym e) l)
        (λ es. send_counts-Good sc desc counter e l)

  pub send_value-Good :
      (desc : Desc) (labels : List Bytes) (r : Result F)
      → length labels ≡ length desc.labels
      → Within (desc ∷ []) ds
      → Good may ds (send_value x desc labels r)
  send_value-Good desc labels (err e') e l = pure-Good may ds (value_error e' ∷ [])
  send_value-Good desc labels (ok value) e l = send_const-Good desc gauge_value value labels e l

  pub send_ret-Good :
      (desc : Desc) (labels : List Bytes) (done : Dict Bytes)
      → length labels ≡ length desc.labels
      → Within (desc ∷ []) ds
      → Good may ds (send_ret x desc labels done)
  unfolding send_ret
  send_ret-Good desc labels done e l = send_value-Good desc labels _ e l

-- Where a panic is allowed, the numbers of labels may differ.
pub collect_may-Good :
    {S E F : Type 0} (x : External S E F) (ds : List Desc) (ms : List (PropertyMetric F))
    (reply : Dict Bytes) (labels : List Bytes)
    → Within (describe_list ms) ds
    → Good true ds (collect_metrics x ms reply labels)
unfolding collect_metrics
collect_may-Good x ds ms reply labels w =
    let out = collect_list x.floats ms reply labels in
    bind-Good true ds (send_all out.0) (λ u. pure (property_errors out.1))
      (send_all_may-Good ds out.0 (
        All-mono (Described x.floats (describe_list ms) labels) _ out.0 (λ m h. w.at m.desc h.0)
          (collect_list-Described x.floats ms reply labels)))
      (λ u. pure-Good true ds (property_errors out.1))

-- A constructor that does not panic, of a collector that sends metrics of its descriptions and of
-- the `undescribed` ones only, and that panics only if it `may`.
abbrev pub IsSound : {S E F : Type 0} → Bool → List Desc → Option (RouterOsCollector S E F) → Type 0
IsSound may undescribed none = ⊥
IsSound may undescribed (some c) =
    (sc : Scope) → Good may (undescribed ++ c.describe) (c.collect sc)
