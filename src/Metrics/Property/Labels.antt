-- ===== src/Metrics/Property/Labels.antt =====
-- A collection sends only metrics that it has described, with the labels of its context.
use mikrotik_exporter.Prelude.{
  Bool, true, false, Option, none, some, List, [], ◌∷◌, ◌++◌, ◌≡◌, refl, ◌⊎◌, inl, inr, All,
  All-append, if◌then◌else◌, Bytes, codes, is_empty, Dict, lookup, value_of, cut_before,
}
use mikrotik_exporter.Convert.Numbers.{Floats}
use mikrotik_exporter.Convert.Duration.{Result, ok, err}
use mikrotik_exporter.Metrics.Context.{Desc, Metric, ValueType, gauge_value}
use mikrotik_exporter.Metrics.Property.{
  gauge_metric, PropertyMetric, simple, rx_tx, status, const_property, ret_gauge, StatusValue,
  status_descs, describe, describe_list, property_value, send_converted, send_pair, collect_simple,
  collect_rx_tx, status_metrics, collect_status, collect_const, collect_ret, collect, collect_list,
  Collected,
}

abbrev pub Listed : Desc → List Desc → Type 0
Listed d [] = ⊥
Listed d (x ∷ xs) = (x ≡ d) ⊎ Listed d xs

pub Listed-append_left : (d : Desc) (xs ys : List Desc) → Listed d xs → Listed d (xs ++ ys)
Listed-append_left d [] ys h = absurd h
Listed-append_left d (x ∷ xs) ys (inl e) = inl e
Listed-append_left d (x ∷ xs) ys (inr h) = inr (Listed-append_left d xs ys h)

pub Listed-append_right : (d : Desc) (xs ys : List Desc) → Listed d ys → Listed d (xs ++ ys)
Listed-append_right d [] ys h = h
Listed-append_right d (x ∷ xs) ys h = inr (Listed-append_right d xs ys h)

pub All-mono {ℓ κ} :
    {A : Type ℓ} (P Q : A → Type κ) (xs : List A) → ((x : A) → P x → Q x) → All P xs → All Q xs
All-mono P Q [] f h = tt
All-mono P Q (x ∷ xs) f h = (f x h.0, All-mono P Q xs f h.1)

module _ {F : Type 0} (fl : Floats F) where
  -- A metric of one of the descriptions, with these label values.
  abbrev pub Described : List Desc → List Bytes → Metric F → Type 0
  Described ds labels x = Listed x.desc ds × (x.label_values ≡ labels)

  send_converted-Described :
      (desc : Desc) (ty : ValueType) (property : Bytes) (labels : List Bytes) (r : Result F)
      → All (Described (desc ∷ []) labels) (send_converted fl desc ty property labels r).0
  send_converted-Described desc ty property labels (ok x) = ((inl refl, refl), tt)
  send_converted-Described desc ty property labels (err e) = tt

  send_pair-Described :
      (rx tx : Desc) (property : Bytes) (labels : List Bytes) (r : Result (F × F))
      → All (Described (rx ∷ tx ∷ []) labels) (send_pair fl rx tx property labels r).0
  send_pair-Described rx tx property labels (ok (t, r)) =
      ((inr (inl refl), refl), ((inl refl, refl), tt))
  send_pair-Described rx tx property labels (err e) = tt

  status_metrics-Described :
      (values : List StatusValue) (v : Bytes) (labels : List Bytes)
      → All (Described (status_descs values) labels) (status_metrics fl values v labels)
  unfolding status_metrics
  status_metrics-Described [] v labels = tt
  status_metrics-Described (d ∷ ds) v labels = (
    (inl refl, refl),
    All-mono (Described (status_descs ds) labels) (Described (d.desc ∷ status_descs ds) labels)
        (status_metrics fl ds v labels) (λ x h. (inr h.0, h.1))
        (status_metrics-Described ds v labels),
  )

  -- Every metric that `Collect` sends has one of the descriptions of `Describe`, on every kind of
  -- metric and every branch, and the label values of the context.
  pub collect-Described :
      (m : PropertyMetric F) (reply : Dict Bytes) (labels : List Bytes)
      → All (Described (describe m) labels) (collect fl m reply labels).0
  unfolding collect describe collect_simple collect_rx_tx collect_status collect_const collect_ret
  collect-Described (simple desc conv property ty d) reply labels =
      go (property_value reply property d)
    where
      go :
          (v : Option Bytes)
          → All
              (Described (desc ∷ []) labels)
              (let out : Collected F = elim v [
                | none ↦ ([], none)
                | some v ↦ send_converted fl desc ty property labels (conv (cut_before b'@' v))
              ] in
                out).0
      go none = tt
      go (some v) = send_converted-Described desc ty property labels (conv (cut_before b'@' v))
  collect-Described (rx_tx rx tx conv property d) reply labels =
      go (property_value reply property d)
    where
      go :
          (v : Option Bytes)
          → All
              (Described (rx ∷ tx ∷ []) labels)
              (let out : Collected F = elim v [
                | none ↦ ([], none)
                | some v ↦ send_pair fl rx tx property labels (conv v)
              ] in
                out).0
      go none = tt
      go (some v) = send_pair-Described rx tx property labels (conv v)
  collect-Described (status values property d) reply labels = go (property_value reply property d)
    where
      go :
          (v : Option Bytes)
          → All
              (Described (status_descs values) labels)
              (let out : Collected F = elim v [
                | none ↦ ([], none)
                | some v ↦ (status_metrics fl values v labels, none)
              ] in
                out).0
      go none = tt
      go (some v) = status_metrics-Described values v labels
  collect-Described (const_property desc property) reply labels = go (lookup property reply)
    where
      go :
          (v : Option Bytes)
          → All
              (Described (desc ∷ []) labels)
              (let out : Collected F = elim v [
                | none ↦ ([], none)
                | some v ↦ (gauge_metric fl desc fl.one_f labels ∷ [], none)
              ] in
                out).0
      go none = tt
      go (some v) = ((inl refl, refl), tt)
  collect-Described (ret_gauge desc conv property) reply labels =
      go (is_empty (value_of (codes "ret") reply))
    where
      go :
          (b : Bool)
          → All
              (Described (desc ∷ []) labels)
              (let out : Collected F =
                  if b
                  then ([], none)
                  else send_converted fl desc gauge_value
                      (codes "ret")
                      labels
                      (conv (cut_before b'@' (value_of (codes "ret") reply))) in
                out).0
      go true = tt
      go false = send_converted-Described desc gauge_value (codes "ret") labels _

  -- So for a list of metrics.
  pub collect_list-Described :
      (ms : List (PropertyMetric F)) (reply : Dict Bytes) (labels : List Bytes)
      → All (Described (describe_list ms) labels) (collect_list fl ms reply labels).0
  unfolding collect_list describe_list
  collect_list-Described [] reply labels = tt
  collect_list-Described (m ∷ ms) reply labels =
      All-append (Described (describe m ++ describe_list ms) labels) _ _
        (All-mono (Described (describe m) labels)
          (Described (describe m ++ describe_list ms) labels) _
          (λ x h. (Listed-append_left x.desc (describe m) (describe_list ms) h.0, h.1))
          (collect-Described m reply labels))
        (All-mono (Described (describe_list ms) labels)
          (Described (describe m ++ describe_list ms) labels) _
          (λ x h. (Listed-append_right x.desc (describe m) (describe_list ms) h.0, h.1))
          (collect_list-Described ms reply labels))
