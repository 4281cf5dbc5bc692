-- ===== src/Collector/Scrape.antt =====
-- The metrics of a scrape of one device: `collectFromDevice` and `Describe` of
-- internal/collector/mikrotik_collector.go, on how the collection of the device ended. Its duration
-- is an argument.
use mikrotik_exporter.Prelude.{List, [], ◌∷◌, Bytes, codes}
use mikrotik_exporter.Convert.Numbers.{Floats}
use mikrotik_exporter.Metrics.Context.{
  Desc, Metric, counter_value, gauge_value, label_dev_name, label_dev_address,
}

abbrev pub scrape_desc : Bytes → Bytes → Desc
scrape_desc name help = record {
  prefix = codes "scrape";
  name = name;
  help = help;
  labels = label_dev_name ∷ label_dev_address ∷ [];
}

abbrev pub scrape_device_duration_desc : Desc
scrape_device_duration_desc =
    scrape_desc (codes "device_duration_seconds")
      (codes "mikrotik_exporter: duration of a device collector scrape")

abbrev pub scrape_device_success_desc : Desc
scrape_device_success_desc =
    scrape_desc (codes "device_success")
      (codes "mikrotik_exporter: whether a device collector succeeded")

abbrev pub scrape_collector_errors_desc : Desc
scrape_collector_errors_desc =
    scrape_desc (codes "device_errors_total")
      (codes "mikrotik_exporter: number of failed collection per device")

-- How `collect` ended.
pub data Ended : Type 0 where
  without_error with_error recovered : Ended

-- `Describe`, in front of the collectors' own descriptions.
unfoldable pub describe_scrape : List Desc → List Desc
describe_scrape descs =
    scrape_device_duration_desc ∷ scrape_device_success_desc ∷ scrape_collector_errors_desc ∷ descs

module _ {F : Type 0} (fl : Floats F) where
  open fl use {zero_f, one_f}

  abbrev pub scrape_gauge : Desc → F → Bytes → Bytes → Metric F
  scrape_gauge desc x name address = record {
    desc = desc;
    value_type = gauge_value;
    value = x;
    label_values = name ∷ address ∷ [];
  }

  -- What is sent behind a collection that returned. `name` and `address` are those of the device
  -- before the collection; the counter has those behind it.
  abbrev pub returned_metrics : F → F → F → Bytes → Bytes → Bytes → Bytes → List (Metric F)
  returned_metrics success errors duration name address name' address' =
      scrape_gauge scrape_device_success_desc success name address
      ∷ record {
        desc = scrape_collector_errors_desc;
        value_type = counter_value;
        value = errors;
        label_values = name' ∷ address' ∷ [];
      }
      ∷ scrape_gauge scrape_device_duration_desc duration name address
      ∷ []

  -- `collectFromDevice`: nothing is sent where a panic was recovered.
  unfoldable pub collect_from_device :
      Ended → F → F → Bytes → Bytes → Bytes → Bytes → List (Metric F)
  collect_from_device without_error errors duration name address name' address' =
      returned_metrics one_f errors duration name address name' address'
  collect_from_device with_error errors duration name address name' address' =
      returned_metrics zero_f errors duration name address name' address'
  collect_from_device recovered errors duration name address name' address' = []
