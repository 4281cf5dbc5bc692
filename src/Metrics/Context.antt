-- ===== src/Metrics/Context.antt =====
-- Descriptions and metrics as they are handed to the Prometheus library, and the labels of a
-- collection: internal/metrics/mod.go, context.go and consts.go. A description keeps the arguments
-- of `BuildFQName` and `NewDesc`, a metric those of `MustNewConstMetric`, which panics where the
-- numbers of label names and of label values differ.
use mikrotik_exporter.Prelude.{
  List, [], ◌∷◌, ◌++◌, ◌==◌, ◌≡◌, refl, arith, length, if◌then◌else◌, Bytes, codes, Dict, value_of,
}

abbrev pub label_dev_name : Bytes
label_dev_name = codes "dev_name"

abbrev pub label_dev_address : Bytes
label_dev_address = codes "dev_address"

abbrev pub label_interface : Bytes
label_interface = codes "interface"

abbrev pub label_comment : Bytes
label_comment = codes "comment"

pub data ValueType : Type 0 where
  counter_value gauge_value : ValueType

pub record Desc : Type 0 where
  pub prefix : Bytes
  pub name : Bytes
  pub help : Bytes
  pub labels : List Bytes

pub record Metric (F : Type 0) : Type 0 where
  pub desc : Desc
  pub value_type : ValueType
  pub value : F
  pub label_values : List Bytes

-- `MetricStringCleanup`.
unfoldable pub metric_string_cleanup : Bytes → Bytes
metric_string_cleanup [] = []
metric_string_cleanup (c ∷ s) = (if c == b'-' then b'_' else c) ∷ metric_string_cleanup s

-- `descriptionForPropertyNameHelpText` and `Description`.
unfoldable pub description : Bytes → Bytes → List Bytes → Bytes → Desc
description prefix property label_names help_text = record {
  prefix = prefix;
  name = metric_string_cleanup property;
  help = help_text;
  labels = label_names;
}

-- The device of a collection and the values of its labels; what the code's context holds besides
-- (channel, client, logger, feature) enters where it is used.
pub record CollectorContext : Type 0 where
  pub device_name : Bytes
  pub device_address : Bytes
  pub labels : List Bytes

-- `NewCollectorContext`.
abbrev pub new_collector_context : Bytes → Bytes → CollectorContext
new_collector_context name address = record {
  device_name = name;
  device_address = address;
  labels = name ∷ address ∷ [];
}

unfoldable pub with_labels : CollectorContext → List Bytes → CollectorContext
with_labels c labels = record c { labels = c.device_name ∷ c.device_address ∷ labels }

-- The values of the named properties: the loop of `WithLabelsFromMap` and `AppendLabelsFromMap`.
unfoldable pub labels_from_map : Dict Bytes → List Bytes → List Bytes
labels_from_map values [] = []
labels_from_map values (n ∷ names) = value_of n values ∷ labels_from_map values names

unfoldable pub with_labels_from_map : CollectorContext → Dict Bytes → List Bytes → CollectorContext
with_labels_from_map c values names = record c {
  labels = c.device_name ∷ c.device_address ∷ labels_from_map values names;
}

unfoldable pub append_labels_from_map :
    CollectorContext → Dict Bytes → List Bytes → CollectorContext
append_labels_from_map c values names = record c {
  labels = c.labels ++ labels_from_map values names;
}

pub length-labels_from_map :
    (values : Dict Bytes) (names : List Bytes)
    → length (labels_from_map values names) ≡ length names
unfolding labels_from_map
length-labels_from_map values [] = refl
length-labels_from_map values (n ∷ names) = omega (arith, length-labels_from_map values names)
