-- ===== src/Feature/Base.antt =====
-- What the collectors of internal/collectors are written with. `Act` is an action on the world `S`
-- that the client of a collection stands in: it gives a value, the next world and the metrics that
-- it sent, in order; `none` for the value is a panic, behind which nothing is done any more. A Go
-- error is the list of the errors that it joins, and the empty list is nil.
pub mod Laws
pub mod Requests
use mikrotik_exporter.Prelude.{
  ℕ, Option, none, some, List, [], ◌∷◌, ◌++◌, map, ◌==◌, if◌then◌else◌, length, Bytes, codes, Dict,
  value_of, pos,
}
use mikrotik_exporter.Client.Reply.{Reply}
use mikrotik_exporter.Convert.Numbers.{Floats}
use mikrotik_exporter.Convert.Duration.{Result, ok, err, ConvertError}
use mikrotik_exporter.Convert.Values.{metric_from_string}
use mikrotik_exporter.Config.Features.{FeatureConf}
use mikrotik_exporter.Config.Device.{Device}
use mikrotik_exporter.Metrics.Context.{
  Desc, Metric, ValueType, gauge_value, CollectorContext, new_collector_context, with_labels,
  with_labels_from_map,
}
use mikrotik_exporter.Metrics.Property.{PropertyMetric, CollectError, collect_list}

-- The result of `Run`: an error, or a reply.
pub data Response (E : Type 0) : Type 0 where
  refused : E → Response E
  answered : Reply → Response E

-- What the collectors call: the client, and functions of the libraries. `time_parse` is `time.Parse`
-- on a layout and a text, as the Unix time that it gives; `ago` the Unix time a duration before now;
-- `thousandth` the division of a float by 1000; `quote` what `strconv.QuoteToASCII` puts between the
-- quotes.
pub record External (S E F : Type 0) : Type 0 where
  pub floats : Floats F
  pub ask : S → List Bytes → S × Response E
  pub time_parse : Bytes → Bytes → Option F
  pub ago : ℕ → F
  pub thousandth : F → F
  pub quote : Bytes → Bytes

pub data FeatureError (E : Type 0) : Type 0 where
  fetch_error : E → FeatureError E
  property_error : CollectError → FeatureError E
  value_error : ConvertError → FeatureError E
  not_supported : Bytes → FeatureError E
  unexpected_response : FeatureError E
  invalid_configuration : Bytes → FeatureError E
  invalid_value_type : FeatureError E

abbrev pub Errors : Type 0 → Type 0
Errors E = List (FeatureError E)

abbrev pub Act : Type 0 → Type 0 → Type 0 → Type 0
Act S F A = S → Option A × S × List (Metric F)

-- The device of a collection and the configuration of the feature: `Device` and `FeatureCfg` of the
-- collector's context.
pub record Scope : Type 0 where
  pub device : Device
  pub feature_cfg : FeatureConf

-- `RouterOSCollector`.
pub record RouterOsCollector (S E F : Type 0) : Type 0 where
  pub describe : List Desc
  pub collect : Scope → Act S F (Errors E)

abbrev pub context_of : Scope → CollectorContext
context_of sc = new_collector_context sc.device.name sc.device.address

-- The label values of the context itself, of `WithLabels` and of `WithLabelsFromMap`.
abbrev pub own_labels : Scope → List Bytes
own_labels sc = (context_of sc).labels

abbrev pub labels_with : Scope → List Bytes → List Bytes
labels_with sc labels = (with_labels (context_of sc) labels).labels

abbrev pub labels_from : Scope → Dict Bytes → List Bytes → List Bytes
labels_from sc values names = (with_labels_from_map (context_of sc) values names).labels

abbrev pub property_errors : {E : Type 0} → List CollectError → Errors E
property_errors es = map property_error es

module _ {S F : Type 0} where
  abbrev pub pure : {A : Type 0} → A → Act S F A
  pure a s = (some a, s, [])

  abbrev pub panic : {A : Type 0} → Act S F A
  panic s = (none, s, [])

  infixl 5 ◌>>=◌
  unfoldable pub ◌>>=◌ : {A B : Type 0} → Act S F A → (A → Act S F B) → Act S F B
  ◌>>=◌ m k s =
      let (a, s', sent) = m s in
      elim a [
        | none ↦ (none, s', sent)
        | some v ↦ let (b, s'', more) = k v s' in (b, s'', sent ++ more)
      ]

  -- `ch <- MustNewConstMetric(...)`: a panic where the numbers of labels and of values differ. Its
  -- other panic, of a description that is not valid in itself (a label name that stands twice), is
  -- left out: the description of no registered collector is such a one.
  unfoldable pub send : Metric F → Act S F Unit
  send x s =
      if length x.label_values == length x.desc.labels then (some tt, s, x ∷ []) else (none, s, [])

  unfoldable pub send_all : List (Metric F) → Act S F Unit
  send_all [] = pure tt
  send_all (x ∷ xs) = do _ ← send x; send_all xs

module _ {S E F : Type 0} where
  -- A loop that joins the errors of its turns.
  unfoldable pub for_each : {A : Type 0} → List A → (A → Act S F (Errors E)) → Act S F (Errors E)
  for_each [] body = pure []
  for_each (a ∷ rest) body = do es ← body a; fs ← for_each rest body; pure (es ++ fs)

  -- A loop that ends at the first error.
  unfoldable pub for_first : {A : Type 0} → List A → (A → Act S F (Errors E)) → Act S F (Errors E)
  for_first [] body = pure []
  for_first (a ∷ rest) body = do
    es ← body a
    elim es [ [] ↦ for_first rest body | e ∷ es' ↦ pure (e ∷ es') ]

  -- `errors.Join(m, n)`.
  unfoldable pub join : Act S F (Errors E) → Act S F (Errors E) → Act S F (Errors E)
  join m n = do es ← m; fs ← n; pure (es ++ fs)

  -- `if err := m; err != nil { return err }` in front of `n`.
  unfoldable pub unless_error : Act S F (Errors E) → Act S F (Errors E) → Act S F (Errors E)
  unless_error m n = do es ← m; elim es [ [] ↦ n | e ∷ es' ↦ pure (e ∷ es') ]

  -- `reply.Done.Map`; a nil `Done` is a panic.
  unfoldable pub done_map : Reply → (Dict Bytes → Act S F (Errors E)) → Act S F (Errors E)
  done_map reply k = elim reply.done [ none ↦ panic | some d ↦ k d.map ]

module _ {S E F : Type 0} (x : External S E F) where
  open x use {floats, ask}

  -- A metric with a description of its own.
  abbrev pub send_const : Desc → ValueType → F → List Bytes → Act S F (Errors E)
  send_const desc ty value labels = do
    _ ← send (record { desc = desc; value_type = ty; value = value; label_values = labels })
    pure []

  -- `Run`, with the return on its error.
  unfoldable pub fetch : List Bytes → (Reply → Act S F (Errors E)) → Act S F (Errors E)
  fetch words k s =
      let (s', r) = ask s words in
      elim r [ refused e ↦ (some (fetch_error e ∷ []), s', []) | answered reply ↦ k reply s' ]

  -- `Collect` of a metric or of a list of metrics on a reply.
  unfoldable pub collect_metrics :
      List (PropertyMetric F) → Dict Bytes → List Bytes → Act S F (Errors E)
  collect_metrics ms reply labels =
      let (sent, es) = collect_list floats ms reply labels in
      do _ ← send_all sent; pure (property_errors es)

  -- `float64(count)`.
  abbrev pub float_of : ℕ → F
  float_of n = floats.of_int (pos n)

  -- A metric for each counted value, in the order of the counter.
  unfoldable pub send_counts : Scope → Desc → Dict ℕ → Act S F (Errors E)
  send_counts sc desc [] = pure []
  send_counts sc desc ((key, count) ∷ counter) = do
    es ← send_const desc gauge_value (float_of count) (labels_with sc (key ∷ []))
    send_counts sc desc counter

  -- A converted value sent as one metric.
  abbrev pub send_value : Desc → List Bytes → Result F → Act S F (Errors E)
  send_value desc labels (err e) = pure (value_error e ∷ [])
  send_value desc labels (ok value) = send_const desc gauge_value value labels

  -- The `ret` of a finished reply, sent as one metric.
  unfoldable pub send_ret : Desc → List Bytes → Dict Bytes → Act S F (Errors E)
  send_ret desc labels done =
      send_value desc labels (metric_from_string floats (value_of (codes "ret") done))
