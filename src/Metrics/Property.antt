-- ===== src/Metrics/Property.antt =====
-- The metrics that read one property of a reply, and what they send for it: `Describe` and
-- `Collect` of internal/metrics/prop_metrics.go, ret_metrics.go and of a list of metrics (mod.go).
-- A collection gives the metrics sent, in order, and its error, if any.
pub mod Labels
pub mod Values
use mikrotik_exporter.Prelude.{
  ℕ, Bool, true, false, Option, none, some, List, [], ◌∷◌, ◌++◌, if◌then◌else◌, Bytes, codes, equal,
  is_empty, Dict, lookup, value_of, cut_before,
}
use mikrotik_exporter.Convert.Numbers.{Floats}
use mikrotik_exporter.Convert.Duration.{Result, ok, err, ConvertError}
use mikrotik_exporter.Metrics.Context.{Desc, Metric, ValueType, counter_value, gauge_value}

-- The error of a conversion, with the property that was converted.
pub data CollectError : Type 0 where
  parse_error : Bytes → ConvertError → CollectError

pub record StatusValue : Type 0 where
  pub value : Bytes
  pub desc : Desc

-- `simplePropertyMetric`, `rxTxPropertyMetric`, `statusPropertyMetric`, `constPropertyMetric` and
-- `retGaugeCollector`.
pub data PropertyMetric (F : Type 0) : Type 0 where
  simple : Desc → (Bytes → Result F) → Bytes → ValueType → Bytes → PropertyMetric F
  rx_tx : Desc → Desc → (Bytes → Result (F × F)) → Bytes → Bytes → PropertyMetric F
  status : List StatusValue → Bytes → Bytes → PropertyMetric F
  const_property : Desc → Bytes → PropertyMetric F
  ret_gauge : Desc → (Bytes → Result F) → Bytes → PropertyMetric F

abbrev pub status_descs : List StatusValue → List Desc
status_descs [] = []
status_descs (v ∷ vs) = v.desc ∷ status_descs vs

-- What a collection sends, and its error.
abbrev pub Collected : Type 0 → Type 0
Collected F = List (Metric F) × Option CollectError

module _ {F : Type 0} where
  unfoldable pub describe : PropertyMetric F → List Desc
  describe (simple desc conv property ty default_value) = desc ∷ []
  describe (rx_tx rx tx conv property default_value) = rx ∷ tx ∷ []
  describe (status values property default_value) = status_descs values
  describe (const_property desc property) = desc ∷ []
  describe (ret_gauge desc conv property) = desc ∷ []

  unfoldable pub describe_list : List (PropertyMetric F) → List Desc
  describe_list [] = []
  describe_list (m ∷ ms) = describe m ++ describe_list ms

-- `propertyVal` behind the tests that the first three metrics share: `none` where they return.
unfoldable pub property_value : Dict Bytes → Bytes → Bytes → Option Bytes
property_value [] property default_value = none
property_value (e ∷ reply) property default_value =
    let found : Bytes = elim (lookup property (e ∷ reply)) [ some v ↦ v | none ↦ default_value ] in
    if is_empty found then none else some found

module _ {F : Type 0} (fl : Floats F) where
  open fl use {zero_f, one_f}

  -- The converted value sent as one metric.
  abbrev pub send_converted : Desc → ValueType → Bytes → List Bytes → Result F → Collected F
  send_converted desc ty property labels (err e) = ([], some (parse_error property e))
  send_converted desc ty property labels (ok x) =
      (record { desc = desc; value_type = ty; value = x; label_values = labels } ∷ [], none)

  unfoldable pub collect_simple :
      Desc → (Bytes → Result F) → Bytes → ValueType → Bytes → Dict Bytes → List Bytes → Collected F
  collect_simple desc conv property ty default_value reply labels =
      elim (property_value reply property default_value) [
        | none ↦ ([], none)
        | some v ↦ send_converted desc ty property labels (conv (cut_before b'@' v))
      ]

  abbrev pub counter_metric : Desc → F → List Bytes → Metric F
  counter_metric desc x labels = record {
    desc = desc;
    value_type = counter_value;
    value = x;
    label_values = labels;
  }

  abbrev pub gauge_metric : Desc → F → List Bytes → Metric F
  gauge_metric desc x labels = record {
    desc = desc;
    value_type = gauge_value;
    value = x;
    label_values = labels;
  }

  -- The pair of the converter is the sent and the received count, in this order.
  abbrev pub send_pair : Desc → Desc → Bytes → List Bytes → Result (F × F) → Collected F
  send_pair rx tx property labels (err e) = ([], some (parse_error property e))
  send_pair rx tx property labels (ok (t, r)) =
      (counter_metric tx t labels ∷ counter_metric rx r labels ∷ [], none)

  unfoldable pub collect_rx_tx :
      Desc → Desc → (Bytes → Result (F × F)) → Bytes → Bytes → Dict Bytes → List Bytes → Collected F
  collect_rx_tx rx tx conv property default_value reply labels =
      elim (property_value reply property default_value) [
        | none ↦ ([], none)
        | some v ↦ send_pair rx tx property labels (conv v)
      ]

  -- The loop over the values: 1 for the value that the property has and 0 for the others.
  unfoldable pub status_metrics : List StatusValue → Bytes → List Bytes → List (Metric F)
  status_metrics [] v labels = []
  status_metrics (d ∷ ds) v labels =
      gauge_metric d.desc (if equal d.value v then one_f else zero_f) labels
      ∷ status_metrics ds v labels

  unfoldable pub collect_status :
      List StatusValue → Bytes → Bytes → Dict Bytes → List Bytes → Collected F
  collect_status values property default_value reply labels =
      elim (property_value reply property default_value) [
        | none ↦ ([], none)
        | some v ↦ (status_metrics values v labels, none)
      ]

  unfoldable pub collect_const : Desc → Bytes → Dict Bytes → List Bytes → Collected F
  collect_const desc property reply labels = elim (lookup property reply) [
    | none ↦ ([], none)
    | some v ↦ (gauge_metric desc one_f labels ∷ [], none)
  ]

  unfoldable pub collect_ret : Desc → (Bytes → Result F) → Dict Bytes → List Bytes → Collected F
  collect_ret desc conv reply labels =
      let v = value_of (codes "ret") reply in
      if is_empty v
      then ([], none)
      else send_converted desc gauge_value (codes "ret") labels (conv (cut_before b'@' v))

  unfoldable pub collect : PropertyMetric F → Dict Bytes → List Bytes → Collected F
  collect (simple desc conv property ty default_value) reply labels =
      collect_simple desc conv property ty default_value reply labels
  collect (rx_tx rx tx conv property default_value) reply labels =
      collect_rx_tx rx tx conv property default_value reply labels
  collect (status values property default_value) reply labels =
      collect_status values property default_value reply labels
  collect (const_property desc property) reply labels = collect_const desc property reply labels
  collect (ret_gauge desc conv property) reply labels = collect_ret desc conv reply labels

  abbrev pub join_error : Option CollectError → List CollectError → List CollectError
  join_error none es = es
  join_error (some e) es = e ∷ es

  -- `PropertyMetricList.Collect`: the errors that it joins, as a list; none is nil.
  unfoldable pub collect_list :
      List (PropertyMetric F) → Dict Bytes → List Bytes → List (Metric F) × List CollectError
  collect_list [] reply labels = ([], [])
  collect_list (m ∷ ms) reply labels =
      let (sent, e) = collect m reply labels in
      let (more, es) = collect_list ms reply labels in (sent ++ more, join_error e es)
