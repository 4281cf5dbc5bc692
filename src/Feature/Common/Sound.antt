-- ===== src/Feature/Common/Sound.antt =====
-- The shared steps of the collectors keep to the descriptions and do not panic.
use mikrotik_exporter.Prelude.{
  suc, Bool, true, false, Option, none, some, List, [], ◌∷◌, ◌≡◌, refl, sym, inl, if◌then◌else◌,
  length, Bytes, codes, Dict, lookup,
}
use mikrotik_exporter.Proto.Sentence.{Sentence}
use mikrotik_exporter.Client.Reply.{Reply}
use mikrotik_exporter.Config.Features.{strs}
use mikrotik_exporter.Metrics.Context.{
  Desc, with_labels, with_labels_from_map, length-labels_from_map,
}
use mikrotik_exporter.Metrics.Property.{
  PropertyMetric, describe_list, describe, simple, rx_tx, status, const_property, ret_gauge,
}
use mikrotik_exporter.Feature.Base.{
  External, invalid_configuration, invalid_value_type, Errors, Act, Scope, labels_with, labels_from,
  pure, collect_metrics,
}
use mikrotik_exporter.Feature.Base.Laws.{
  Good, fits, fits-Listed, Within, Answers, pure-Good, for_each-Good, done_map-Good,
}
use mikrotik_exporter.Feature.Base.Requests.{
  fetch-Good, collect-Good, send_const-Good, send_ret-Good,
}
use mikrotik_exporter.Feature.Common.{
  first_row, if_present, with_strs, configured, collect_rows, collect_done, collect_named,
  collect_statuses, set_value,
}

module _ {S E F : Type 0} (may : Bool) (ds : List Desc) where
  pub if-Good :
      (b : Bool) (m n : Act S F (Errors E))
      → Good may ds m
      → Good may ds n
      → Good may ds (if b then m else n)
  if-Good true m n g h = g
  if-Good false m n g h = h

  pub first_row-Good :
      (reply : Reply) (k : Dict Bytes → Act S F (Errors E))
      → ((m : Dict Bytes) → Good may ds (k m))
      → Good may ds (first_row reply k)
  unfolding first_row
  first_row-Good reply k h = go reply.re
    where
      go :
          (re : List Sentence)
          → let out : Act S F (Errors E) = elim re [ [] ↦ pure [] | s ∷ ss ↦ k s.map ] in
            Good may ds out
      go [] = pure-Good may ds []
      go (s ∷ ss) = h s.map

  pub if_present-Good :
      (name : Bytes) (m : Dict Bytes) (k : Bytes → Act S F (Errors E))
      → ((v : Bytes) → Good may ds (k v))
      → Good may ds (if_present name m k)
  unfolding if_present
  if_present-Good name m k h = go (lookup name m)
    where
      go :
          (o : Option Bytes)
          → let out : Act S F (Errors E) = elim o [ none ↦ pure [] | some v ↦ k v ] in
            Good may ds out
      go none = pure-Good may ds []
      go (some v) = h v

  pub configured-Good :
      (sc : Scope) (name : Bytes) (k : List Bytes → Act S F (Errors E))
      → ((ss : List Bytes) → Good may ds (k ss))
      → Good may ds (configured sc name k)
  unfolding configured
  configured-Good sc name k h = go (strs sc.feature_cfg name)
    where
      go : (r : Option (List Bytes)) → Good may ds (with_strs r k)
      go none = pure-Good may ds (invalid_value_type ∷ [])
      go (some []) = pure-Good may ds (invalid_configuration (codes "missing configuration") ∷ [])
      go (some (s ∷ ss)) = h (s ∷ ss)

module _ {S E F : Type 0} (x : External S E F) (may : Bool) (ds : List Desc)
    (answers : Answers x) where
  pub row-Good :
      (metrics : List (PropertyMetric F)) (m : Dict Bytes) (names : List Bytes) (sc : Scope)
      → fits (suc (suc (length names))) (describe_list metrics) ≡ true
      → Within (describe_list metrics) ds
      → Good may ds (collect_metrics x metrics m (labels_from sc m names))
  unfolding with_labels_from_map
  row-Good metrics m names sc f w =
      collect-Good x may ds metrics m _ (rw (length-labels_from_map m names) f) w

  pub collect_rows-Good :
      (words : List Bytes) (metrics : List (PropertyMetric F)) (names : List Bytes) (sc : Scope)
      → fits (suc (suc (length names))) (describe_list metrics) ≡ true
      → Within (describe_list metrics) ds
      → Good may ds (collect_rows x words metrics names sc)
  unfolding collect_rows
  collect_rows-Good words metrics names sc f w =
      fetch-Good x may ds answers words _
        (λ reply a. for_each-Good may ds reply.re _ (λ re. row-Good metrics re.map names sc f w))

  pub collect_done-Good :
      (words : List Bytes) (metrics : List (PropertyMetric F)) (labels : List Bytes)
      → fits (length labels) (describe_list metrics) ≡ true
      → Within (describe_list metrics) ds
      → Good may ds (collect_done x words metrics labels)
  unfolding collect_done
  collect_done-Good words metrics labels f w =
      fetch-Good x may ds answers words _ (λ reply a.
        done_map-Good may ds reply _ a (λ d. collect-Good x may ds metrics d labels f w))

  -- The collection of a sentence with one label of its own.
  pub labelled-Good :
      (metrics : List (PropertyMetric F)) (m : Dict Bytes) (name : Bytes) (sc : Scope)
      → fits 3 (describe_list metrics) ≡ true
      → Within (describe_list metrics) ds
      → Good may ds (collect_metrics x metrics m (labels_with sc (name ∷ [])))
  unfolding with_labels
  labelled-Good metrics m name sc f w = collect-Good x may ds metrics m _ f w

  pub collect_named-Good :
      (words : List Bytes) (metrics : List (PropertyMetric F)) (sc : Scope)
      → fits 3 (describe_list metrics) ≡ true
      → Within (describe_list metrics) ds
      → Good may ds (collect_named x words metrics sc)
  unfolding collect_named
  collect_named-Good words metrics sc f w = fetch-Good x may ds answers words _ (λ reply a.
      for_each-Good may ds reply.re _ (λ re.
        if_present-Good may ds (codes "name") re.map _
          (λ name. labelled-Good metrics re.map name sc f w)))

  pub collect_statuses-Good :
      (words : Bytes → List Bytes) (desc : Desc) (statuses : List Bytes) (sc : Scope)
      → length desc.labels ≡ 3
      → Within (desc ∷ []) ds
      → Good may ds (collect_statuses x words desc statuses sc)
  unfolding collect_statuses with_labels
  collect_statuses-Good words desc statuses sc e w = for_each-Good may ds statuses _ (λ status.
      fetch-Good x may ds answers (words status) _ (λ reply a.
        done_map-Good may ds reply _ a (λ d. send_ret-Good x may ds desc _ d (sym e) w)))

-- A metric that can be set.
abbrev pub IsSimple : {F : Type 0} → PropertyMetric F → Type 0
IsSimple (simple desc conv property ty default_value) = Unit
IsSimple _ = ⊥

pub set_value-Good :
    {S E F : Type 0} (x : External S E F) (may : Bool) (ds : List Desc) (m : PropertyMetric F)
    (value : F) (labels : List Bytes)
    → IsSimple m
    → fits (length labels) (describe m) ≡ true
    → Within (describe_list (m ∷ [])) ds
    → Good may ds (set_value x m value labels)
unfolding set_value describe describe_list
set_value-Good x may ds (simple desc conv property ty default_value) value labels i f w =
    send_const-Good x may ds desc ty value labels
      (sym (fits-Listed (length labels) (desc ∷ []) desc f (inl refl))) w
set_value-Good x may ds (rx_tx _ _ _ _ _) value labels i f w = absurd i
set_value-Good x may ds (status _ _ _) value labels i f w = absurd i
set_value-Good x may ds (const_property _ _) value labels i f w = absurd i
set_value-Good x may ds (ret_gauge _ _ _) value labels i f w = absurd i
