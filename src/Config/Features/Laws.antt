-- ===== src/Config/Features/Laws.antt =====
-- What `fix` leaves in a map of features, and the names that are enabled in it.
use mikrotik_exporter.Prelude.{
  true, Option, none, some, [], ◌∷◌, ◌≡◌, ◌≢◌, refl, arith, Bytes, equal, equal_refl, Dict, lookup,
  insert, lookup-insert,
}
use mikrotik_exporter.Config.Features.{
  Value, bool_value, FeatureConf, enabled_key, bool_value_of, enabled, fix_conf, fix_entries,
}

-- A feature configuration that says whether it is enabled.
abbrev pub IsFixed : FeatureConf → Type 0
IsFixed none = ⊥
IsFixed (some v) = lookup enabled_key v ≢ none

pub fix_conf-IsFixed : (f : FeatureConf) → IsFixed (fix_conf f)
unfolding fix_conf lookup equal
fix_conf-IsFixed none = cc
fix_conf-IsFixed (some v) = go (lookup enabled_key v) refl
  where
    go :
        (found : Option Value)
        → lookup enabled_key v ≡ found
        → IsFixed
            (elim found [ some _ ↦ some v | none ↦ some (insert enabled_key (bool_value true) v) ])
    go none e =
        rw (lookup-insert enabled_key enabled_key (bool_value true) v)
          (rw (equal_refl enabled_key) cc)
    go (some x) e = rw e cc

-- `fix` changes no answer of `Enabled`: what said nothing was enabled before.
pub enabled-fix_conf : (f : FeatureConf) → enabled (fix_conf f) ≡ enabled f
unfolding enabled bool_value_of fix_conf lookup equal
enabled-fix_conf none = refl
enabled-fix_conf (some v) =
    ground
      (arith, lookup-insert enabled_key enabled_key (bool_value true) v, equal_refl enabled_key)

pub lookup-fix_entries :
    (k : Bytes) (m : Dict FeatureConf)
    → lookup k (fix_entries m) ≡ elim (lookup k m) [ none ↦ none | some c ↦ some (fix_conf c) ]
unfolding lookup
lookup-fix_entries k [] = refl
lookup-fix_entries k ((j, c) ∷ m) = ground (arith, lookup-fix_entries k m)
