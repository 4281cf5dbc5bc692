-- ===== src/Metrics/Ret.antt =====
-- `RetMetricBuilder` of internal/metrics/ret_metrics.go: the metric of the `ret` of a reply. `Build`
-- panics for another type than a gauge, which is `none`.
use mikrotik_exporter.Prelude.{
  Bool, true, false, Option, none, some, List, [], ◌++◌, if◌then◌else◌, Bytes, codes, is_empty,
}
use mikrotik_exporter.Convert.Numbers.{Floats}
use mikrotik_exporter.Convert.Duration.{Result}
use mikrotik_exporter.Convert.Values.{metric_from_string}
use mikrotik_exporter.Metrics.Context.{description}
use mikrotik_exporter.Metrics.Property.{PropertyMetric, ret_gauge}
use mikrotik_exporter.Metrics.Builder.{
  MetricType, metric_counter, metric_gauge, base_labels, or_default,
}

pub record RetMetricBuilder (F : Type 0) : Type 0 where
  pub value_converter : Option (Bytes → Result F)
  pub prefix : Bytes
  pub property : Bytes
  pub metric_name : Bytes
  pub metric_help : Bytes
  pub labels : List Bytes
  pub metric_type : MetricType

abbrev pub is_counter : MetricType → Bool
is_counter metric_counter = true
is_counter _ = false

module _ {F : Type 0} where
  unfoldable pub new_ret_gauge_metric : Bytes → Bytes → List Bytes → RetMetricBuilder F
  new_ret_gauge_metric prefix property labels = record {
    value_converter = none;
    prefix = prefix;
    property = property;
    metric_name = [];
    metric_help = [];
    labels = base_labels labels;
    metric_type = metric_gauge;
  }

  unfoldable pub ret_with_name : RetMetricBuilder F → Bytes → RetMetricBuilder F
  ret_with_name r name = record r { metric_name = name }

  unfoldable pub ret_with_help : RetMetricBuilder F → Bytes → RetMetricBuilder F
  ret_with_help r help = record r { metric_help = help }

  unfoldable pub ret_with_converter : RetMetricBuilder F → (Bytes → Result F) → RetMetricBuilder F
  ret_with_converter r vc = record r { value_converter = some vc }

  unfoldable pub ret_metric_name : RetMetricBuilder F → Bytes
  ret_metric_name r =
      if is_empty r.metric_name
      then (if is_counter r.metric_type then r.property ++ codes "_total" else r.property)
      else r.metric_name

  unfoldable pub ret_metric_help : RetMetricBuilder F → Bytes
  ret_metric_help r =
      if is_empty r.metric_help then r.property ++ (codes " for " ++ r.prefix) else r.metric_help

module _ {F : Type 0} (fl : Floats F) where
  unfoldable pub build_ret : RetMetricBuilder F → Option (PropertyMetric F)
  build_ret r = elim r.metric_type [
    | metric_gauge ↦ some (
        ret_gauge (description r.prefix (ret_metric_name r) r.labels (ret_metric_help r))
          (or_default fl r.value_converter (metric_from_string fl)) r.property)
    | _ ↦ none
  ]
