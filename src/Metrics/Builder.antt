-- ===== src/Metrics/Builder.antt =====
-- `PropertyMetricBuilder` of internal/metrics/prop_metrics.go. A method that panics gives `none`.
pub mod Check
use mikrotik_exporter.Prelude.{
  ℕ, Bool, true, false, ◌||◌, not, Option, none, some, List, [], ◌∷◌, ◌++◌, if◌then◌else◌, Bytes,
  codes, equal, is_empty, contains,
}
use mikrotik_exporter.Convert.Numbers.{Floats}
use mikrotik_exporter.Convert.Duration.{Result}
use mikrotik_exporter.Convert.Values.{metric_from_string, split_string_to_floats_on_comma}
use mikrotik_exporter.Metrics.Context.{
  Desc, description, counter_value, gauge_value, label_dev_name, label_dev_address,
}
use mikrotik_exporter.Metrics.Property.{
  PropertyMetric, simple, rx_tx, status, const_property, StatusValue,
}

pub data MetricType : Type 0 where
  metric_counter metric_gauge metric_rx_tx metric_status metric_const metric_ret : MetricType

-- An unset converter is `none`.
pub record Builder (F : Type 0) : Type 0 where
  pub value_converter : Option (Bytes → Result F)
  pub rx_tx_value_converter : Option (Bytes → Result (F × F))
  pub prefix : Bytes
  pub property : Bytes
  pub metric_name : Bytes
  pub metric_help : Bytes
  pub labels : List Bytes
  pub metric_type : MetricType
  pub values : List Bytes
  pub default_value : Bytes

-- A problem that `check` reports.
pub data BuilderError : Type 0 where
  duplicated_label missing_label : Bytes → BuilderError

abbrev pub base_labels : List Bytes → List Bytes
base_labels labels = label_dev_name ∷ label_dev_address ∷ labels

-- The pairs of `check`'s two loops: a label and those in front of it but the nearest one.
-- `earlier` are the labels that the inner loop walks, and `previous` is the one that it misses.
unfoldable pub duplicates_of : Bytes → List Bytes → List BuilderError
duplicates_of l [] = []
duplicates_of l (ll ∷ earlier) =
    if equal l ll then duplicated_label l ∷ duplicates_of l earlier else duplicates_of l earlier

unfoldable pub check_duplicates : List Bytes → Bytes → List Bytes → List BuilderError
check_duplicates earlier previous [] = []
check_duplicates earlier previous (l ∷ labels) =
    duplicates_of l earlier ++ check_duplicates (earlier ++ previous ∷ []) l labels

unfoldable pub check_labels : List Bytes → List BuilderError
check_labels [] = []
check_labels (l ∷ labels) = check_duplicates [] l labels

abbrev pub require_label : List Bytes → Bytes → List BuilderError
require_label labels l = if contains labels l then [] else missing_label l ∷ []

-- `status` gives each value its own name.
unfoldable pub status_values : Bytes → Bytes → List Bytes → Bytes → List Bytes → List StatusValue
status_values prefix metric_name labels help [] = []
status_values prefix metric_name labels help (v ∷ vs) =
    record { value = v; desc = description prefix (metric_name ++ b'_' ∷ v) labels help }
    ∷ status_values prefix metric_name labels help vs

abbrev pub takes_converter : MetricType → Bool
takes_converter metric_counter = true
takes_converter metric_gauge = true
takes_converter metric_ret = true
takes_converter _ = false

abbrev pub is_rx_tx : MetricType → Bool
is_rx_tx metric_rx_tx = true
is_rx_tx _ = false

abbrev pub is_const : MetricType → Bool
is_const metric_const = true
is_const _ = false

abbrev pub is_total : MetricType → Bool
is_total metric_counter = true
is_total metric_rx_tx = true
is_total _ = false

module _ {F : Type 0} where
  -- The part that the constructors share.
  abbrev pub new_builder : MetricType → Bytes → Bytes → List Bytes → Builder F
  new_builder ty prefix property labels = record {
    value_converter = none;
    rx_tx_value_converter = none;
    prefix = prefix;
    property = property;
    metric_name = [];
    metric_help = [];
    labels = base_labels labels;
    metric_type = ty;
    values = [];
    default_value = [];
  }

  unfoldable pub new_property_counter_metric : Bytes → Bytes → List Bytes → Builder F
  new_property_counter_metric prefix property labels =
      new_builder metric_counter prefix property labels

  unfoldable pub new_property_gauge_metric : Bytes → Bytes → List Bytes → Builder F
  new_property_gauge_metric prefix property labels = new_builder metric_gauge prefix property labels

  unfoldable pub new_property_rx_tx_metric : Bytes → Bytes → List Bytes → Builder F
  new_property_rx_tx_metric prefix property labels = new_builder metric_rx_tx prefix property labels

  unfoldable pub new_property_status_metric : Bytes → Bytes → List Bytes → List Bytes → Builder F
  new_property_status_metric prefix property values labels =
      record (new_builder metric_status prefix property labels) { values = values }

  unfoldable pub new_property_const_metric : Bytes → Bytes → List Bytes → Builder F
  new_property_const_metric prefix property labels = new_builder metric_const prefix property labels

  unfoldable pub new_property_ret_metric : Bytes → Bytes → List Bytes → Builder F
  new_property_ret_metric prefix name labels =
      record (new_builder metric_ret prefix (codes "ret") labels) { metric_name = name }

  unfoldable pub with_name : Builder F → Bytes → Builder F
  with_name p name = record p { metric_name = name }

  unfoldable pub with_help : Builder F → Bytes → Builder F
  with_help p help = record p { metric_help = help }

  unfoldable pub with_converter : Builder F → (Bytes → Result F) → Option (Builder F)
  with_converter p vc =
      if takes_converter p.metric_type then some (record p { value_converter = some vc }) else none

  unfoldable pub with_rx_tx_converter : Builder F → (Bytes → Result (F × F)) → Option (Builder F)
  with_rx_tx_converter p vc =
      if is_rx_tx p.metric_type then some (record p { rx_tx_value_converter = some vc }) else none

  unfoldable pub with_default : Builder F → Bytes → Option (Builder F)
  with_default p default_value =
      if is_const p.metric_type then none else some (record p { default_value = default_value })

  -- The name, the help and the converters that are not set.
  unfoldable pub prepared_name : Builder F → Bytes
  prepared_name p =
      if is_empty p.metric_name
      then (if is_total p.metric_type then p.property ++ codes "_total" else p.property)
      else p.metric_name

  unfoldable pub prepared_help : Builder F → Bytes
  prepared_help p =
      if is_empty p.metric_help then p.property ++ (codes " for " ++ p.prefix) else p.metric_help

  unfoldable pub check : Builder F → List BuilderError
  check p =
      check_labels p.labels
      ++ (require_label p.labels label_dev_name ++ require_label p.labels label_dev_address)

module _ {F : Type 0} (fl : Floats F) where
  abbrev pub or_default {ℓ} : {A : Type ℓ} → Option A → A → A
  or_default none d = d
  or_default (some a) d = a

  unfoldable pub prepare : Builder F → Builder F
  prepare p = record p {
    metric_name = prepared_name p;
    metric_help = prepared_help p;
    value_converter = some (or_default p.value_converter (metric_from_string fl));
    rx_tx_value_converter =
        some (or_default p.rx_tx_value_converter (split_string_to_floats_on_comma fl));
  }

  -- `Build` behind `prepare`; what `check` reports is logged only.
  unfoldable pub build_prepared : MetricType → Builder F → PropertyMetric F
  build_prepared metric_counter p =
      simple (description p.prefix p.metric_name p.labels p.metric_help)
        (or_default p.value_converter (metric_from_string fl)) p.property counter_value
        p.default_value
  build_prepared metric_gauge p =
      simple (description p.prefix p.metric_name p.labels p.metric_help)
        (or_default p.value_converter (metric_from_string fl)) p.property gauge_value
        p.default_value
  build_prepared metric_rx_tx p =
      rx_tx
        (description p.prefix (codes "rx_" ++ p.metric_name) p.labels
          (p.metric_help ++ codes " (RX)"))
        (description p.prefix (codes "tx_" ++ p.metric_name) p.labels
          (p.metric_help ++ codes " (TX)"))
        (or_default p.rx_tx_value_converter (split_string_to_floats_on_comma fl)) p.property
        p.default_value
  build_prepared metric_status p =
      status (status_values p.prefix p.metric_name p.labels p.metric_help p.values) p.property
        p.default_value
  build_prepared metric_const p =
      const_property (description p.prefix p.metric_name p.labels p.metric_help) p.property
  build_prepared metric_ret p =
      simple (description p.prefix p.metric_name p.labels p.metric_help)
        (or_default p.value_converter (metric_from_string fl)) p.property gauge_value
        p.default_value

  unfoldable pub build : Builder F → PropertyMetric F
  build p = build_prepared p.metric_type (prepare p)
