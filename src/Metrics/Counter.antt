-- ===== src/Metrics/Counter.antt =====
-- `CountByProperty` of internal/metrics/counter.go.
use mikrotik_exporter.Prelude.{
  ℕ, ◌+◌, none, some, List, [], ◌∷◌, ◌≡◌, arith, if◌then◌else◌, Bytes, equal, equal_iff, Dict,
  lookup, insert, lookup-insert, value_of,
}
use mikrotik_exporter.Proto.Sentence.{Sentence}

-- The count of a key so far; 0 where it is missing.
unfoldable pub count_of : Bytes → Dict ℕ → ℕ
count_of k m = elim (lookup k m) [ none ↦ 0 | some n ↦ n ]

-- The loop over the sentences; a missing property counts as the empty text.
unfoldable pub count_onto : Dict ℕ → List Sentence → Bytes → Dict ℕ
count_onto counter [] property = counter
count_onto counter (re ∷ res) property =
    let pool = value_of property re.map in
    let cnt : ℕ = elim (lookup pool counter) [ none ↦ 1 | some count ↦ count + 1 ] in
    count_onto (insert pool cnt counter) res property

unfoldable pub count_by_property : List Sentence → Bytes → Dict ℕ
count_by_property re property = count_onto [] re property

-- The sentences whose property has the value.
abbrev pub occurrences : Bytes → List Sentence → Bytes → ℕ
occurrences v [] property = 0
occurrences v (re ∷ res) property =
    (if equal (value_of property re.map) v then 1 else 0) + occurrences v res property

count_onto-occurrences :
    (re : List Sentence) (property v : Bytes) (counter : Dict ℕ)
    → count_of v (count_onto counter re property) ≡ count_of v counter + occurrences v re property
unfolding count_of count_onto
count_onto-occurrences [] property v counter = omega arith
count_onto-occurrences (re ∷ res) property v counter =
    let pool = value_of property re.map in
    let cnt : ℕ = elim (lookup pool counter) [ none ↦ 1 | some count ↦ count + 1 ] in
    ground (
      arith,
      count_onto-occurrences res property v (insert pool cnt counter),
      lookup-insert pool v cnt counter,
      equal_iff pool v,
    )

-- The counter of a value, 0 where the map has none, is the number of the sentences whose property
-- has that value.
pub count_by_property-occurrences :
    (re : List Sentence) (property v : Bytes)
    → count_of v (count_by_property re property) ≡ occurrences v re property
unfolding count_by_property count_of lookup
count_by_property-occurrences re property v = omega (arith, count_onto-occurrences re property v [])
