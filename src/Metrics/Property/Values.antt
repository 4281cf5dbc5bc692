-- ===== src/Metrics/Property/Values.antt =====
-- The values that a collection sends for the text of its property.
use mikrotik_exporter.Prelude.{
  ℕ, false, Option, none, some, List, [], ◌∷◌, ◌++◌, append_assoc, ◌≡◌, ◌≢◌, refl, sym, ap, ◌∙◌,
  arith, Bytes, equal_iff, is_empty, Dict, lookup, cut_before, cut_before-append, cut_before_self,
  Lacks,
}
use mikrotik_exporter.Convert.Numbers.{Floats}
use mikrotik_exporter.Convert.Duration.{Result}
use mikrotik_exporter.Metrics.Context.{Desc, Metric, ValueType, gauge_value}
use mikrotik_exporter.Metrics.Property.{
  PropertyMetric, simple, status, StatusValue, property_value, collect_simple, status_metrics,
  collect_status, collect, collect_list, join_error, send_converted, CollectError,
}

-- The text of the property is the one of the reply, if that is not empty.
property_value-lookup :
    (reply : Dict Bytes) (property d v : Bytes)
    → lookup property reply ≡ some v
    → is_empty v ≡ false
    → property_value reply property d ≡ some v
unfolding property_value
property_value-lookup [] property d v h e = unfold lookup in cc
property_value-lookup (x ∷ reply) property d v h e = rw (h, property_value) (rw e)

is_empty-append : (a : Bytes) (c : ℕ) (b : Bytes) → is_empty (a ++ c ∷ b) ≡ false
is_empty-append [] c b = refl
is_empty-append (x ∷ a) c b = refl

module _ {F : Type 0} (fl : Floats F) where
  -- One metric for each value, in order: a gauge that is 1 for the value `v` and 0 for any other.
  abbrev pub Marks : Bytes → List Bytes → List StatusValue → List (Metric F) → Type 0
  Marks v labels [] [] = Unit
  Marks v labels [] (m ∷ ms) = ⊥
  Marks v labels (d ∷ ds) [] = ⊥
  Marks v labels (d ∷ ds) (m ∷ ms) =
      ((m.desc ≡ d.desc)
        × (m.value_type ≡ gauge_value)
        × (m.label_values ≡ labels)
        × (d.value ≡ v → m.value ≡ fl.one_f)
        × (d.value ≢ v → m.value ≡ fl.zero_f))
      × Marks v labels ds ms

  status_metrics-Marks :
      (ds : List StatusValue) (v : Bytes) (labels : List Bytes)
      → Marks v labels ds (status_metrics fl ds v labels)
  unfolding status_metrics
  status_metrics-Marks [] v labels = tt
  status_metrics-Marks (d ∷ ds) v labels = (
    (
      refl,
      refl,
      refl,
      λ e. rw ((equal_iff d.value v).1 e),
      λ n. ground (arith, equal_iff d.value v, n),
    ),
    status_metrics-Marks ds v labels,
  )

  -- For a property whose text in the reply is not empty, a status sends one metric for each of its
  -- values without an error, also where the text is none of them: 1 for the value that is the text
  -- and 0 for the rest.
  pub collect_status-Marks :
      (ds : List StatusValue) (property d v : Bytes) (reply : Dict Bytes) (labels : List Bytes)
      → lookup property reply ≡ some v
      → is_empty v ≡ false
      → let (sent, e) = collect fl (status ds property d) reply labels in
        Marks v labels ds sent × (e ≡ none)
  unfolding collect collect_status
  collect_status-Marks ds property d v reply labels h e =
      rw (property_value-lookup reply property d v h e, collect_status)
        (status_metrics-Marks ds v labels, refl)

  collect_simple_text :
      (desc : Desc) (conv : Bytes → Result F) (property : Bytes) (ty : ValueType) (d v : Bytes)
      (reply : Dict Bytes) (labels : List Bytes)
      → property_value reply property d ≡ some v
      → collect fl (simple desc conv property ty d) reply labels
        ≡ send_converted fl desc ty property labels (conv (cut_before b'@' v))
  unfolding collect collect_simple
  collect_simple_text desc conv property ty d v reply labels h = rw (h, collect_simple)

  -- A simple metric drops an `@` and all behind it: where two replies have the same text in front
  -- of it, that text not being empty, they send the same.
  pub collect_simple-at :
      (desc : Desc) (conv : Bytes → Result F) (property : Bytes) (ty : ValueType)
      (d v suffix : Bytes) (reply reply' : Dict Bytes) (labels : List Bytes)
      → Lacks b'@' v
      → is_empty v ≡ false
      → lookup property reply ≡ some v
      → lookup property reply' ≡ some (v ++ b'@' ∷ suffix)
      → (collect fl (simple desc conv property ty d) reply' labels
          ≡ collect fl (simple desc conv property ty d) reply labels)
        × (collect fl (simple desc conv property ty d) reply labels
            ≡ send_converted fl desc ty property labels (conv v))
  collect_simple-at desc conv property ty d v suffix reply reply' labels l e h h' =
      let plain =
        collect_simple_text desc conv property ty d v reply labels
          (property_value-lookup reply property d v h e)
        ∙ ap (λ t. send_converted fl desc ty property labels (conv t)) (cut_before_self b'@' v l) in
      let marked =
        collect_simple_text desc conv property ty d (v ++ b'@' ∷ suffix) reply' labels (
          property_value-lookup reply' property d (v ++ b'@' ∷ suffix) h'
            (is_empty-append v b'@' suffix))
        ∙ ap (λ t. send_converted fl desc ty property labels (conv t))
            (cut_before-append b'@' v suffix l) in
      (marked ∙ sym plain, plain)

  -- The error of a metric, as a list; nil is no error.
  abbrev pub errors_of : Option CollectError → List CollectError
  errors_of none = []
  errors_of (some e) = e ∷ []

  join_error-errors_of :
      (e : Option CollectError) (es : List CollectError) → join_error fl e es ≡ errors_of e ++ es
  join_error-errors_of none es = refl
  join_error-errors_of (some e) es = refl

  join_error-append :
      (e : Option CollectError) (es fs : List CollectError)
      → join_error fl e es ++ fs ≡ join_error fl e (es ++ fs)
  join_error-append none es fs = refl
  join_error-append (some x) es fs = refl

  collect_list-append :
      (ms ns : List (PropertyMetric F)) (reply : Dict Bytes) (labels : List Bytes)
      → let (sent, es) = collect_list fl ms reply labels in
        let (more, fs) = collect_list fl ns reply labels in
        collect_list fl (ms ++ ns) reply labels ≡ (sent ++ more, es ++ fs)
  unfolding collect_list
  collect_list-append [] ns reply labels = refl
  collect_list-append (m ∷ ms) ns reply labels =
      let (sent, e) = collect fl m reply labels in
      let (rest, es) = collect_list fl ms reply labels in
      let (more, fs) = collect_list fl ns reply labels in
      rw (collect_list-append ms ns reply labels)
        (rw (append_assoc sent rest more, join_error-append e es fs))

  -- A list of metrics is collected to its end whatever fails: a metric at any place of the list sends
  -- what it sends alone, behind what the metrics in front of it send, and its error stands behind
  -- their errors; the metrics after it add theirs.
  pub collect_list-member :
      (before : List (PropertyMetric F)) (m : PropertyMetric F) (after : List (PropertyMetric F))
      (reply : Dict Bytes) (labels : List Bytes)
      → let (sent, es) = collect_list fl before reply labels in
        let (own, e) = collect fl m reply labels in
        let (more, fs) = collect_list fl after reply labels in
        collect_list fl (before ++ m ∷ after) reply labels
        ≡ (sent ++ (own ++ more), es ++ (errors_of e ++ fs))
  unfolding collect_list collect
  collect_list-member before m after reply labels =
      collect_list-append before (m ∷ after) reply labels
      ∙ ap
          (λ fs. (
            (collect_list fl before reply labels).0
                ++ ((collect fl m reply labels).0 ++ (collect_list fl after reply labels).0),
            (collect_list fl before reply labels).1 ++ fs,
          ))
          (join_error-errors_of (collect fl m reply labels).1
            (collect_list fl after reply labels).1)
