-- ===== src/Feature/Common.antt =====
-- Steps that several collectors of internal/collectors are made of, what they read from the device
-- and the configuration, and `CleanHostName` of internal/metrics/mod.go.
mod Digits
pub mod Rows
pub mod Sound
use mikrotik_exporter.Prelude.{
  ℕ, zero, suc, ◌+◌, ◌/◌, ◌%◌, ◌==◌, ltb, Bool, false, not, Option, none, some, List, [], ◌∷◌, ◌++◌,
  if◌then◌else◌, Bytes, codes, is_empty, Dict, lookup, ℤ, pos, ltb_ℤ,
}
use mikrotik_exporter.Client.Reply.{Reply}
use mikrotik_exporter.Config.Features.{bool_value_of, strs}
use mikrotik_exporter.Config.Version.{compare_version}
use mikrotik_exporter.Metrics.Context.{Desc, description, label_dev_name, label_dev_address}
use mikrotik_exporter.Metrics.Property.{PropertyMetric, simple}
use mikrotik_exporter.Feature.Base.{
  External, not_supported, invalid_configuration, invalid_value_type, Errors, Act, Scope,
  labels_with, labels_from, pure, panic, ◌>>=◌, for_each, done_map, send_const, fetch,
  collect_metrics, send_ret,
}

-- `ctx.Device.FirmwareVersion.Compare(major, minor, 0) < 0`.
abbrev pub is_before : Scope → ℤ → ℤ → Bool
is_before sc major minor =
    ltb_ℤ (compare_version sc.device.firmware_version major minor (pos 0)) (pos 0)

-- `ctx.Device.FirmwareVersion.Major < 7`.
abbrev pub is_before_7 : Scope → Bool
is_before_7 sc = ltb_ℤ sc.device.firmware_version.major (pos 7)

-- `ctx.FeatureCfg.BoolValue("details", false)`.
abbrev pub has_details : Scope → Bool
has_details sc = bool_value_of sc.feature_cfg (codes "details") false

-- A description with the labels of the device and one more.
abbrev pub labelled : Bytes → Bytes → Bytes → Bytes → Desc
labelled prefix property help label =
    description prefix property (label_dev_name ∷ label_dev_address ∷ label ∷ []) help

module _ {S E F : Type 0} where
  -- `m`, whose errors are dropped, and then `n`.
  abbrev pub followed_by : Act S F (Errors E) → Act S F (Errors E) → Act S F (Errors E)
  followed_by m n = m >>= (λ es. n)

  abbrev pub unsupported : Bytes → Act S F (Errors E)
  unsupported what = pure (not_supported what ∷ [])

  -- Nothing without a sentence, else `k` on the map of the first one.
  unfoldable pub first_row : Reply → (Dict Bytes → Act S F (Errors E)) → Act S F (Errors E)
  first_row reply k = elim reply.re [ [] ↦ pure [] | re ∷ res ↦ k re.map ]

  -- `if v, ok := m[name]; ok`.
  unfoldable pub if_present : Bytes → Dict Bytes → (Bytes → Act S F (Errors E)) → Act S F (Errors E)
  if_present name m k = elim (lookup name m) [ none ↦ pure [] | some v ↦ k v ]

  abbrev pub with_strs :
      Option (List Bytes) → (List Bytes → Act S F (Errors E)) → Act S F (Errors E)
  with_strs none k = pure (invalid_value_type ∷ [])
  with_strs (some []) k = pure (invalid_configuration (codes "missing configuration") ∷ [])
  with_strs (some (s ∷ ss)) k = k (s ∷ ss)

  -- The strings of an entry of the configuration, and the returns where it has none.
  unfoldable pub configured : Scope → Bytes → (List Bytes → Act S F (Errors E)) → Act S F (Errors E)
  configured sc name k = with_strs (strs sc.feature_cfg name) k

abbrev pub itoa_on : ℕ → ℕ → Bytes
itoa_on zero n = []
itoa_on (suc fuel) n =
    let rest = itoa_on fuel (n / 10) in
    if ltb n 10 then (b'0' + n) ∷ [] else rest ++ (b'0' + n % 10) ∷ []

-- `strconv.Itoa` of a count: the decimal digits.
unfoldable pub itoa : ℕ → Bytes
itoa n = itoa_on (suc n) n

-- All but the last byte.
abbrev pub but_last : Bytes → Bytes
but_last [] = []
but_last (c ∷ []) = []
but_last (c ∷ d ∷ s) = c ∷ but_last (d ∷ s)

-- `CleanHostName`: `none` is the panic of `hostname[1 : len(hostname)-1]` on a lone quote.
unfoldable pub clean_host_name : (Bytes → Bytes) → Bytes → Option Bytes
clean_host_name quote [] = some []
clean_host_name quote (c ∷ s) =
    if not (c == 34)
    then some (quote (c ∷ s))
    else if is_empty s
    then none
    else some (quote (but_last s))

module _ {S E F : Type 0} (x : External S E F) where
  -- A request, whose sentences are collected one by one with labels of their properties.
  unfoldable pub collect_rows :
      List Bytes → List (PropertyMetric F) → List Bytes → Scope → Act S F (Errors E)
  collect_rows words metrics names sc = fetch x words (λ reply.
      for_each reply.re (λ re. collect_metrics x metrics re.map (labels_from sc re.map names)))

  -- A request, whose final sentence is collected.
  unfoldable pub collect_done :
      List Bytes → List (PropertyMetric F) → List Bytes → Act S F (Errors E)
  collect_done words metrics labels =
      fetch x words (λ reply. done_map reply (λ d. collect_metrics x metrics d labels))

  -- A request, whose sentences with a name are collected with it as the label.
  unfoldable pub collect_named : List Bytes → List (PropertyMetric F) → Scope → Act S F (Errors E)
  collect_named words metrics sc = fetch x words (λ reply. for_each reply.re (λ re.
      if_present (codes "name") re.map
        (λ name. collect_metrics x metrics re.map (labels_with sc (name ∷ [])))))

  -- The number that the device counts for each status: a failed request does not end the loop.
  unfoldable pub collect_statuses :
      (Bytes → List Bytes) → Desc → List Bytes → Scope → Act S F (Errors E)
  collect_statuses words desc statuses sc = for_each statuses (λ status.
      fetch x (words status)
        (λ reply. done_map reply (send_ret x desc (labels_with sc (status ∷ [])))))

  -- `PropertySimpleSet.Set`; of another metric the interface is nil, and its call a panic.
  unfoldable pub set_value : PropertyMetric F → F → List Bytes → Act S F (Errors E)
  set_value (simple desc conv property ty default_value) value labels =
      send_const x desc ty value labels
  set_value _ value labels = panic
