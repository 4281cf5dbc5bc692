-- ===== src/Feature/Common/Rows.antt =====
-- The collection of the sentences of a reply, against a description that has no channel and no panic.
use mikrotik_exporter.Prelude.{
  suc, true, Option, none, some, List, [], ◌∷◌, ◌++◌, ◌≡◌, refl, sym, ap, ◌∙◌, append-nil, arith,
  ◌==◌, length, All, Bytes, Dict,
}
use mikrotik_exporter.Proto.Sentence.{Sentence}
use mikrotik_exporter.Client.Reply.{Reply}
use mikrotik_exporter.Convert.Numbers.{Floats}
use mikrotik_exporter.Metrics.Context.{Metric, with_labels_from_map, length-labels_from_map}
use mikrotik_exporter.Metrics.Property.{PropertyMetric, describe_list, collect_list}
use mikrotik_exporter.Metrics.Property.Labels.{Described, collect_list-Described, All-mono}
use mikrotik_exporter.Feature.Base.{
  Response, refused, answered, fetch_error, External, Errors, Act, Scope, labels_from, pure, ◌>>=◌,
  send, send_all, for_each, fetch, collect_metrics, property_errors,
}
use mikrotik_exporter.Feature.Base.Laws.{fits, fits-Listed}
use mikrotik_exporter.Feature.Common.{collect_rows}

module _ {F : Type 0} (fl : Floats F) (metrics : List (PropertyMetric F)) (names : List Bytes)
    (sc : Scope) where
  -- The metrics of all sentences, in order.
  abbrev pub rows_sent : List Sentence → List (Metric F)
  rows_sent [] = []
  rows_sent (re ∷ res) =
      (collect_list fl metrics re.map (labels_from sc re.map names)).0 ++ rows_sent res

  -- The errors of all sentences, in order.
  abbrev pub rows_errors : {E : Type 0} → List Sentence → Errors E
  rows_errors [] = []
  rows_errors (re ∷ res) =
      property_errors (collect_list fl metrics re.map (labels_from sc re.map names)).1
      ++ rows_errors res

abbrev HasLabels : {F : Type 0} → Metric F → Type 0
HasLabels m = length m.label_values ≡ length m.desc.labels

bind-runs :
    {S F A B : Type 0} (m : Act S F A) (k : A → Act S F B) (s s' s'' : S) (a : A) (b : Option B)
    (sent more : List (Metric F))
    → m s ≡ (some a, s', sent)
    → k a s' ≡ (b, s'', more)
    → (m >>= k) s ≡ (b, s'', sent ++ more)
unfolding ◌>>=◌
bind-runs {S} {F} {A} {B} m k s s' s'' a b sent more e f =
    ap step e ∙ ap (λ r. (r.0, r.1, sent ++ r.2)) f
  where
    step : Option A × S × List (Metric F) → Option B × S × List (Metric F)
    step (v, t, l) = elim v [
      | none ↦ (none, t, l)
      | some w ↦ let (c, t', l') = k w t in (c, t', l ++ l')
    ]

send-HasLabels :
    {S F : Type 0} (x : Metric F) (s : S) → HasLabels x → send x s ≡ (some tt, s, x ∷ [])
unfolding send
send-HasLabels x s h =
    let same : (length x.label_values == length x.desc.labels) ≡ true = ground (arith, h) in
    rw (same) refl

send_all-HasLabels :
    {S F : Type 0} (xs : List (Metric F)) (s : S)
    → All HasLabels xs
    → send_all xs s ≡ (some tt, s, xs)
unfolding send_all
send_all-HasLabels [] s h = refl
send_all-HasLabels (x ∷ xs) s h =
    bind-runs (send x) (λ u. send_all xs) s s s tt (some tt) (x ∷ []) xs (send-HasLabels x s h.0)
      (send_all-HasLabels xs s h.1)

module _ {S E F : Type 0} (x : External S E F) (metrics : List (PropertyMetric F))
    (names : List Bytes) (sc : Scope)
    (f : fits (suc (suc (length names))) (describe_list metrics) ≡ true) where
  open x use {floats, ask}

  row-HasLabels :
      (m : Dict Bytes) → All HasLabels (collect_list floats metrics m (labels_from sc m names)).0
  unfolding with_labels_from_map
  row-HasLabels m =
      All-mono (Described floats (describe_list metrics) (labels_from sc m names)) HasLabels _
        (λ y h.
          ap length h.1
          ∙ (ap (λ n. suc (suc n)) (length-labels_from_map m names)
              ∙ sym (fits-Listed (suc (suc (length names))) (describe_list metrics) y.desc f h.0)))
        (collect_list-Described floats metrics m (labels_from sc m names))

  collect_metrics-row :
      (m : Dict Bytes) (s : S)
      → let out = collect_list floats metrics m (labels_from sc m names) in
        collect_metrics x metrics m (labels_from sc m names) s
        ≡ (some (property_errors out.1), s, out.0)
  unfolding collect_metrics
  collect_metrics-row m s =
      let out = collect_list floats metrics m (labels_from sc m names) in
      bind-runs (send_all out.0) (λ u. pure (property_errors out.1)) s s s tt
        (some (property_errors out.1)) out.0 [] (send_all-HasLabels out.0 s (row-HasLabels m)) refl
      ∙ ap (λ l. (some (property_errors out.1), s, l)) (append-nil out.0)

  for_each-rows :
      (re : List Sentence) (s : S)
      → for_each re (λ r. collect_metrics x metrics r.map (labels_from sc r.map names)) s
        ≡ (some (rows_errors floats metrics names sc re), s, rows_sent floats metrics names sc re)
  unfolding for_each
  for_each-rows [] s = refl
  for_each-rows (re ∷ res) s =
      let out = collect_list floats metrics re.map (labels_from sc re.map names) in
      let rest_sent = rows_sent floats metrics names sc res in
      bind-runs _ _ s s s (property_errors out.1) _ out.0 rest_sent (collect_metrics-row re.map s) (
        bind-runs _ _ s s s _ _ rest_sent [] (for_each-rows res s) refl
        ∙ ap (λ l. (some (property_errors out.1 ++ rows_errors floats metrics names sc res), s, l))
            (append-nil rest_sent))

  -- A collector that collects the sentences of one request, whose metrics have as many labels as are
  -- given: when the request is answered, the collection gives for each sentence of the reply, in
  -- order, what the metrics give on it, sends all of that, and joins all errors: an error of one
  -- sentence or of one metric keeps back nothing of the others.
  pub collect_rows-rows :
      (words : List Bytes) (s s' : S) (reply : Reply)
      → ask s words ≡ (s', answered reply)
      → collect_rows x words metrics names sc s ≡ (
        some (rows_errors floats metrics names sc reply.re),
        s',
        rows_sent floats metrics names sc reply.re,
      )
  unfolding collect_rows fetch
  collect_rows-rows words s s' reply e = ap run_on e ∙ for_each-rows reply.re s'
    where
      run_on : S × Response E → Option (Errors E) × S × List (Metric F)
      run_on (t, r) = elim r [
        | refused e ↦ (some (fetch_error e ∷ []), t, [])
        | answered reply ↦
            for_each reply.re (λ r. collect_metrics x metrics r.map (labels_from sc r.map names)) t
      ]
