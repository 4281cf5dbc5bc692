-- ===== src/Convert/Times.antt =====
-- The converters of time stamps: `ParseTS` and `ParseTSInLocation` of
-- internal/convert/converters.go. The functions of the time package are parameters, which give the
-- Unix time: `time_parse` is `time.Parse`, `load_location` is `time.LoadLocation`, and
-- `parse_in_location` is `time.ParseInLocation`.
use mikrotik_exporter.Prelude.{Option, none, some, if◌then◌else◌, Bytes, codes, is_empty}
use mikrotik_exporter.Convert.Numbers.{Floats}
use mikrotik_exporter.Convert.Duration.{Result, ok, err, bad_time}

abbrev pub iso_layout : Bytes
iso_layout = codes "2006-01-02 15:04:05"

abbrev pub old_layout : Bytes
old_layout = codes "Jan/02/2006 15:04:05"

module _ {F : Type 0} (fl : Floats F) (time_parse : Bytes → Bytes → Option F) where
  -- What stands behind a time in the first layout that did not fit.
  abbrev pub parse_old : Bytes → Result F
  parse_old value = elim (time_parse old_layout value) [ none ↦ err bad_time | some t ↦ ok t ]

  unfoldable pub parse_ts : Bytes → Result F
  parse_ts value =
      if is_empty value
      then ok fl.zero_f
      else elim (time_parse iso_layout value) [ some t ↦ ok t | none ↦ parse_old value ]

  -- The second layout is read as UTC in both.
  unfoldable pub parse_ts_in_location :
      {L : Type 0} → (Bytes → Option L) → (Bytes → Bytes → L → Option F) → Bytes → Bytes → Result F
  parse_ts_in_location load_location parse_in_location value timezone =
      if is_empty value then ok fl.zero_f else elim (load_location timezone) [
        | none ↦ err bad_time
        | some loc ↦ elim (parse_in_location iso_layout value loc) [
          | some t ↦ ok t
          | none ↦ parse_old value
        ]
      ]
