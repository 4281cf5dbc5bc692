-- ===== src/Config/Features.antt =====
-- Feature configurations and the features of a profile: `FeatureConf` and `Features` of
-- internal/config/config.go. Both are Go maps that may be nil: `none` is nil, which reads as an
-- empty map and cannot be written to. `strings.ToLower` is the one of ASCII: the names of the
-- collectors have no other letters.
pub mod Laws
use mikrotik_exporter.Prelude.{
  ℕ, Bool, true, false, not, Option, none, some, List, [], ◌∷◌, ◌++◌, if◌then◌else◌, Bytes, codes,
  is_empty, contains, to_lower, trim_space, Dict, lookup, insert,
}

-- The values that YAML gives; of a list only the strings are read, and `none` is another item.
pub data Value : Type 0 where
  bool_value : Bool → Value
  string_value : Bytes → Value
  list_value : List (Option Bytes) → Value
  other_value : Value

abbrev pub FeatureConf : Type 0
FeatureConf = Option (Dict Value)

abbrev pub Features : Type 0
Features = Option (Dict FeatureConf)

-- Reading a nil map.
abbrev pub entries {ℓ} : {V : Type ℓ} → Option (Dict V) → Dict V
entries none = []
entries (some m) = m

abbrev pub enabled_key : Bytes
enabled_key = codes "enabled"

abbrev pub resource_key : Bytes
resource_key = codes "resource"

-- `NewFeatureConf`.
abbrev pub new_feature_conf : FeatureConf
new_feature_conf = some ((enabled_key, bool_value true) ∷ [])

-- `v, ok := f[name]`, then `v.(bool)`.
abbrev pub bool_or : Bool → Option Value → Bool
bool_or d (some (bool_value b)) = b
bool_or d _ = d

unfoldable pub bool_value_of : FeatureConf → Bytes → Bool → Bool
bool_value_of f name default_value = bool_or default_value (lookup name (entries f))

unfoldable pub enabled : FeatureConf → Bool
enabled f = bool_value_of f enabled_key true

-- `ConfigFor`.
unfoldable pub config_for : Features → Bytes → FeatureConf
config_for f name = elim (lookup name (entries f)) [ none ↦ none | some c ↦ c ]

abbrev pub enabled_names : Dict FeatureConf → List Bytes
enabled_names [] = []
enabled_names ((name, cfg) ∷ m) = if enabled cfg then name ∷ enabled_names m else enabled_names m

unfoldable pub feature_names : Features → List Bytes
feature_names f = enabled_names (entries f)

-- The keys that are no collector.
abbrev pub unknown_keys : List Bytes → Dict FeatureConf → List Bytes
unknown_keys collectors [] = []
unknown_keys collectors ((key, cfg) ∷ m) =
    if contains collectors (to_lower key)
    then unknown_keys collectors m
    else key ∷ unknown_keys collectors m

-- `Features.validate`: the unknown keys; nothing is checked where there are no collectors.
unfoldable pub validate_features : List Bytes → Features → List Bytes
validate_features [] f = []
validate_features (c ∷ collectors) f = unknown_keys (c ∷ collectors) (entries f)

unfoldable pub fix_conf : FeatureConf → FeatureConf
fix_conf none = new_feature_conf
fix_conf (some v) = elim (lookup enabled_key v) [
  | some _ ↦ some v
  | none ↦ some (insert enabled_key (bool_value true) v)
]

abbrev pub fix_entries : Dict FeatureConf → Dict FeatureConf
fix_entries [] = []
fix_entries ((k, v) ∷ m) = (k, fix_conf v) ∷ fix_entries m

-- `Features.fix`: a nil map is left alone.
unfoldable pub fix_features : Features → Features
fix_features none = none
fix_features (some m) = some (fix_entries m)

-- The strings of a list, trimmed, without the empty ones; `none` is `ErrInvalidValueType`.
abbrev pub trimmed : List (Option Bytes) → Option (List Bytes)
trimmed [] = some []
trimmed (none ∷ inlist) = none
trimmed (some v ∷ inlist) =
    let res = trimmed inlist in
    let s = trim_space v in
    elim res [ none ↦ none | some vs ↦ some (if is_empty s then vs else s ∷ vs) ]

abbrev pub strs_of : Option Value → Option (List Bytes)
strs_of none = some []
strs_of (some (list_value inlist)) = trimmed inlist
strs_of (some _) = none

-- `Strs`.
unfoldable pub strs : FeatureConf → Bytes → Option (List Bytes)
strs f name = strs_of (lookup name (entries f))
