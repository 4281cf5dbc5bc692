-- ===== src/Collector/Exporter/Instances.antt =====
-- Which collectors `createCollectors` makes (internal/collector/mod.go).
use mikrotik_exporter.Prelude.{
  true, ◌||◌, Option, none, some, List, [], ◌∷◌, ◌≡◌, refl, sym, ◌∙◌, arith, ap, Bool-cases, inl,
  inr, if◌then◌else◌, Bytes, Dict, lookup, insert, lookup-insert, equal, equal_iff, contains,
}
use mikrotik_exporter.Collector.Exporter.{instantiate_collector, create_onto, create_collectors}

module _ {Col : Type 0} where
  -- The instance of a name: the registered one where the name is enabled, what was there otherwise.
  abbrev or_before : Option Col → Option Col → Option Col
  or_before none before = before
  or_before (some col) before = some col

  or_before-none : (x : Option Col) → or_before x none ≡ x
  or_before-none none = refl
  or_before-none (some col) = refl

  lookup-create_onto :
      (registered colls : Dict Col) (names : List Bytes) (n : Bytes)
      → lookup n (create_onto registered colls names) ≡ (
          if contains names n
          then or_before (lookup n registered) (lookup n colls)
          else lookup n colls)
  unfolding create_onto contains instantiate_collector
  lookup-create_onto registered colls [] n = refl
  lookup-create_onto registered colls (k ∷ names) n =
      go (lookup k registered) (λ q. ap (λ x. lookup x registered) (sym ((equal_iff k n).0 q)))
        (λ before. lookup-create_onto registered before names n)
    where
      go :
          (found : Option Col)
          → (equal k n ≡ true → lookup n registered ≡ found)
          → ((before : Dict Col)
              → lookup n (create_onto registered before names) ≡ (
                  if contains names n
                  then or_before (lookup n registered) (lookup n before)
                  else lookup n before))
          → lookup n (
              create_onto registered
                (elim found [ none ↦ colls | some col ↦ insert k col colls ])
                names)
            ≡ (if equal k n || contains names n
                then or_before (lookup n registered) (lookup n colls)
                else lookup n colls)
      go none e ih = elim (Bool-cases (equal k n)) [
        | inl q ↦ rw (q, e q) (ih colls ∙ rw (e q) (ground arith))
        | inr q ↦ rw q (ih colls)
      ]
      go (some col) e ih = elim (Bool-cases (equal k n)) [
        | inl q ↦
            rw (q, e q)
              (ih (insert k col colls) ∙ rw (e q, lookup-insert k n col colls, q) (ground arith))
        | inr q ↦ rw q (ih (insert k col colls) ∙ rw (lookup-insert k n col colls, q) refl)
      ]

  -- `createCollectors` makes an instance for a name exactly if the name is enabled and registered,
  -- and it is the one that is registered for it.
  pub lookup-create_collectors :
      (registered : Dict Col) (names : List Bytes) (n : Bytes)
      → lookup n (create_collectors registered names)
        ≡ (if contains names n then lookup n registered else none)
  unfolding create_collectors lookup
  lookup-create_collectors registered names n =
      lookup-create_onto registered [] names n
      ∙ ap (λ x. if contains names n then x else none) (or_before-none (lookup n registered))
