-- ===== src/Tests/Metrics.antt =====
-- Metrics of concrete replies.
use mikrotik_exporter.Prelude.{
  ℕ, none, List, [], ◌∷◌, ◌++◌, ◌≡◌, refl, arith, Bytes, codes, All, Dict, lookup, equal, inl,
}
use mikrotik_exporter.Proto.Sentence.{Sentence}
use mikrotik_exporter.Convert.Values.{metric_from_string}
use mikrotik_exporter.Metrics.Context.{Desc, description, counter_value}
use mikrotik_exporter.Metrics.Property.{
  PropertyMetric, simple, status, StatusValue, describe_list, collect, collect_list, send_converted,
}
use mikrotik_exporter.Metrics.Property.Labels.{Described, collect_list-Described}
use mikrotik_exporter.Metrics.Property.Values.{
  Marks, collect_status-Marks, collect_simple-at, errors_of, collect_list-member,
}
use mikrotik_exporter.Metrics.Builder.{
  duplicated_label, check_labels, check_duplicates, duplicates_of,
}
use mikrotik_exporter.Metrics.Builder.Check.{
  Reported, StandsApart, check_labels-misses_neighbour, check_labels-reports,
  check_labels-StandsApart,
}
use mikrotik_exporter.Metrics.Counter.{
  count_by_property, count_of, occurrences, count_by_property-occurrences,
}
use mikrotik_exporter.Tests.Samples.{whole}

abbrev label_values : List Bytes
label_values = codes "router" ∷ codes "10.0.0.1" ∷ []

abbrev running : StatusValue
running = record { value = codes "up"; desc = description (codes "link") (codes "state_up") [] [] }

abbrev stopped : StatusValue
stopped = record {
  value = codes "down";
  desc = description (codes "link") (codes "state_down") [] [];
}

abbrev reply : Dict Bytes
reply = (codes "state", codes "down") ∷ (codes "temp", codes "40@1") ∷ []

abbrev state : PropertyMetric ℕ
state = status (running ∷ stopped ∷ []) (codes "state") []

abbrev temperature_desc : Desc
temperature_desc = description (codes "health") (codes "temp") [] []

abbrev temperature : PropertyMetric ℕ
temperature = simple temperature_desc (metric_from_string whole) (codes "temp") counter_value []

collect_list-Described_example :
    All
      (Described whole (describe_list (state ∷ temperature ∷ [])) label_values)
      (collect_list whole (state ∷ temperature ∷ []) reply label_values).0
collect_list-Described_example =
    collect_list-Described whole (state ∷ temperature ∷ []) reply label_values

collect_status-Marks_example :
    let (sent, e) = collect whole state reply label_values in
    Marks whole (codes "down") label_values (running ∷ stopped ∷ []) sent × (e ≡ none)
unfolding lookup equal
collect_status-Marks_example =
    collect_status-Marks whole (running ∷ stopped ∷ []) (codes "state") [] (codes "down") reply
      label_values refl refl

abbrev plain_reply : Dict Bytes
plain_reply = (codes "temp", codes "40") ∷ []

collect_simple-at_example :
    (collect whole temperature reply label_values
      ≡ collect whole temperature plain_reply label_values)
    × (collect whole temperature plain_reply label_values
        ≡ send_converted whole temperature_desc counter_value
            (codes "temp")
            label_values
            (metric_from_string whole (codes "40")))
unfolding lookup equal
collect_simple-at_example =
    collect_simple-at whole temperature_desc (metric_from_string whole) (codes "temp") counter_value
      [] (codes "40") (codes "1") plain_reply reply label_values (ground arith) refl refl refl

-- The metric in the middle fails: its text is no number.
abbrev broken : PropertyMetric ℕ
broken = simple temperature_desc (metric_from_string whole) (codes "state") counter_value []

collect_list-member_example :
    let (sent, es) = collect_list whole (state ∷ []) reply label_values in
    let (own, e) = collect whole broken reply label_values in
    let (more, fs) = collect_list whole (temperature ∷ []) reply label_values in
    collect_list whole (state ∷ broken ∷ temperature ∷ []) reply label_values
    ≡ (sent ++ (own ++ more), es ++ (errors_of whole e ++ fs))
collect_list-member_example =
    collect_list-member whole (state ∷ []) broken (temperature ∷ []) reply label_values

check_labels-misses_neighbour_example :
    check_labels (codes "a" ∷ (codes "b" ∷ []) ++ codes "c" ∷ codes "c" ∷ [])
    ≡ check_labels (codes "a" ∷ ((codes "b" ∷ []) ++ codes "c" ∷ []))
unfolding equal
check_labels-misses_neighbour_example =
    check_labels-misses_neighbour (codes "a") (codes "b" ∷ []) (codes "c") (refl, (refl, tt))

check_labels-reports_example :
    Reported
      (duplicated_label (codes "c"))
      (check_labels (codes "c" ∷ (codes "b" ∷ codes "c" ∷ codes "d" ∷ [])))
check_labels-reports_example =
    check_labels-reports [] (codes "c") (codes "b" ∷ []) (codes "d" ∷ []) cc

abbrev three_labels : List Bytes
three_labels = codes "c" ∷ codes "b" ∷ codes "c" ∷ []

three_labels-Reported : Reported (duplicated_label (codes "c")) (check_labels three_labels)
unfolding check_labels check_duplicates duplicates_of equal
three_labels-Reported = inl refl

check_labels-StandsApart_example : StandsApart (codes "c") three_labels
check_labels-StandsApart_example =
    check_labels-StandsApart (codes "c") three_labels three_labels-Reported

abbrev leases : List Sentence
leases =
    record { map = (codes "server", codes "x") ∷ []; word = codes "!re"; tag = [] }
    ∷ record { map = (codes "server", codes "y") ∷ []; word = codes "!re"; tag = [] }
    ∷ record { map = (codes "server", codes "x") ∷ []; word = codes "!re"; tag = [] }
    ∷ []

count_by_property-occurrences_example :
    count_of (codes "x") (count_by_property leases (codes "server"))
    ≡ occurrences (codes "x") leases (codes "server")
count_by_property-occurrences_example =
    count_by_property-occurrences leases (codes "server") (codes "x")
