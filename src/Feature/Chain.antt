-- ===== src/Feature/Chain.antt =====
-- The chains of calls that make the metrics of a collector, `NewProperty...Metric(...).With...(...)
-- .Build()`, where `none` is the panic of a call in the chain, and the joins of literal texts.
use mikrotik_exporter.Prelude.{Option, none, some, List, [], ◌∷◌, ◌++◌, Bytes}
use mikrotik_exporter.Convert.Numbers.{Floats}
use mikrotik_exporter.Convert.Duration.{Result}
use mikrotik_exporter.Metrics.Property.{PropertyMetric}
use mikrotik_exporter.Metrics.Builder.{
  Builder, new_property_counter_metric, new_property_gauge_metric, new_property_rx_tx_metric,
  new_property_const_metric, new_property_ret_metric, with_name, with_help, with_converter,
  with_rx_tx_converter, with_default, build,
}

abbrev pub Chain : Type 0 → Type 0
Chain F = Option (Builder F)

module _ {F : Type 0} where
  abbrev pub counter : Bytes → Bytes → List Bytes → Chain F
  counter prefix property labels = some (new_property_counter_metric prefix property labels)

  abbrev pub gauge : Bytes → Bytes → List Bytes → Chain F
  gauge prefix property labels = some (new_property_gauge_metric prefix property labels)

  abbrev pub rx_tx_metric : Bytes → Bytes → List Bytes → Chain F
  rx_tx_metric prefix property labels = some (new_property_rx_tx_metric prefix property labels)

  abbrev pub const_metric : Bytes → Bytes → List Bytes → Chain F
  const_metric prefix property labels = some (new_property_const_metric prefix property labels)

  abbrev pub ret_metric : Bytes → Bytes → List Bytes → Chain F
  ret_metric prefix name labels = some (new_property_ret_metric prefix name labels)

  -- The chain comes last, so that the calls read from the last to the first.
  abbrev pub named : Bytes → Chain F → Chain F
  named name none = none
  named name (some b) = some (with_name b name)

  abbrev pub helped : Bytes → Chain F → Chain F
  helped help none = none
  helped help (some b) = some (with_help b help)

  abbrev pub converted : (Bytes → Result F) → Chain F → Chain F
  converted vc none = none
  converted vc (some b) = with_converter b vc

  abbrev pub rx_tx_converted : (Bytes → Result (F × F)) → Chain F → Chain F
  rx_tx_converted vc none = none
  rx_tx_converted vc (some b) = with_rx_tx_converter b vc

  abbrev pub defaulted : Bytes → Chain F → Chain F
  defaulted value none = none
  defaulted value (some b) = with_default b value

  abbrev pub add_built :
      Floats F → Chain F → Option (List (PropertyMetric F)) → Option (List (PropertyMetric F))
  add_built fl none rest = none
  add_built fl (some b) none = none
  add_built fl (some b) (some ms) = some (build fl b ∷ ms)

  -- The metrics of a list, built in order.
  abbrev pub built : Floats F → List (Chain F) → Option (List (PropertyMetric F))
  built fl [] = some []
  built fl (c ∷ cs) = add_built fl c (built fl cs)

module _ {F : Type 0} where
  abbrev pub built_one : Floats F → Chain F → Option (PropertyMetric F)
  built_one fl none = none
  built_one fl (some b) = some (build fl b)

infixl 5 ◌>>=◌
abbrev pub ◌>>=◌ : {A B : Type 0} → Option A → (A → Option B) → Option B
◌>>=◌ none k = none
◌>>=◌ (some a) k = k a

-- `strings.Join(texts, ",")`.
unfoldable pub comma_joined : List Bytes → Bytes
comma_joined [] = []
comma_joined (t ∷ []) = t
comma_joined (t ∷ u ∷ ts) = t ++ b',' ∷ comma_joined (u ∷ ts)
