-- ===== src/Feature/Ethernet/Proplist.antt =====
-- What poe_collector.go sends for a device that returns only the properties that it was asked for.
use mikrotik_exporter.Prelude.{
  Bool, true, false, Option, none, some, List, [], ◌∷◌, ◌++◌, ◌≡◌, refl, All, Bytes, codes,
  contains, equal, equal_iff, split, strip_prefix, if◌then◌else◌, Dict, lookup,
}
use mikrotik_exporter.Proto.Sentence.{Sentence}
use mikrotik_exporter.Client.Reply.{Reply}
use mikrotik_exporter.Metrics.Context.{Metric}
use mikrotik_exporter.Metrics.Property.{PropertyMetric}
use mikrotik_exporter.Metrics.Property.Labels.{Listed}
use mikrotik_exporter.Feature.Base.{
  Response, refused, answered, fetch_error, External, Errors, Act, Scope, for_each, fetch,
}
use mikrotik_exporter.Feature.Base.Laws.{Good, Returns, pure-Good, bind-Good}
use mikrotik_exporter.Feature.Common.{if_present, collect_named}
use mikrotik_exporter.Feature.Common.Sound.{first_row-Good}
use mikrotik_exporter.Feature.Ethernet.{collect_poe, collect_poe_for}

-- The properties in the `.proplist` of a request.
abbrev pub requested : List Bytes → Option (List Bytes)
requested [] = none
requested (w ∷ ws) = elim (strip_prefix (codes "=.proplist=") w) [
  | none ↦ requested ws
  | some p ↦ let (first, others) = split b',' p in some (first ∷ others)
]

-- A reply has no other properties than the requested ones.
abbrev pub IsRestricted : {E : Type 0} → Option (List Bytes) → Response E → Type 0
IsRestricted none r = Unit
IsRestricted (some names) (refused e) = Unit
IsRestricted (some names) (answered reply) =
    All (λ (re : Sentence). All (λ (e : Bytes × Bytes). contains names e.0 ≡ true) re.map) reply.re

-- The device honours `.proplist`.
abbrev pub HonoursProplist : {S E F : Type 0} → External S E F → Type 0
HonoursProplist {S} x =
    (s : S) (words : List Bytes) → IsRestricted (requested words) (x.ask s words).1

lookup-contains :
    (names : List Bytes) (k : Bytes) (m : Dict Bytes)
    → All (λ (e : Bytes × Bytes). contains names e.0 ≡ true) m
    → contains names k ≡ false
    → lookup k m ≡ none
unfolding lookup
lookup-contains names k [] h n = refl
lookup-contains names k ((j, v) ∷ m) h n = go (equal j k) refl (lookup-contains names k m h.1 n)
  where
    go : (b : Bool) → equal j k ≡ b → lookup k m ≡ none → (if b then some v else lookup k m) ≡ none
    go true e r = absurd (cc ((equal_iff j k).0 e, h.0, n))
    go false e r = r

module _ {S E F : Type 0} (x : External S E F) (honours : HonoursProplist x) where
  open x use {ask}

  fetch_restricted-Good :
      (words : List Bytes) (k : Reply → Act S F (Errors E))
      → ((reply : Reply)
          → IsRestricted {E = E} (requested words) (answered reply)
          → Good true [] (k reply))
      → Good true [] (fetch x words k)
  unfolding fetch
  fetch_restricted-Good words k h = record {
    runs = λ s. go (ask s words).0 (ask s words).1 (honours s words);
  }
    where
      go :
          (s' : S) (r : Response E)
          → IsRestricted (requested words) r
          → let out : Option (Errors E) × S × List (Metric F) = elim r [
            | refused e ↦ (some (fetch_error e ∷ []), s', [])
            | answered reply ↦ k reply s'
          ] in
            Returns true out.0 × All (λ (y : Metric F). Listed y.desc []) out.2
      go s' (refused e) a = (tt, tt)
      go s' (answered reply) a = (h reply a).runs s'

  unnamed-rows :
      (names : List Bytes) (re : List Sentence) (k : Sentence → Bytes → Act S F (Errors E))
      → contains names (codes "name") ≡ false
      → All (λ (r : Sentence). All (λ (e : Bytes × Bytes). contains names e.0 ≡ true) r.map) re
      → Good true [] (for_each re (λ r. if_present (codes "name") r.map (k r)))
  unfolding for_each if_present
  unnamed-rows names [] k n h = pure-Good true [] []
  unnamed-rows names (r ∷ re) k n h =
      bind-Good true [] _ _
        (rw (lookup-contains names (codes "name") r.map h.0 n, if_present) (pure-Good true [] []))
        (λ es.
          bind-Good true [] _ _ (unnamed-rows names re k n h.1)
            (λ fs. pure-Good true [] (es ++ fs)))

  unlisted : (l : List (Metric F)) → All (λ (y : Metric F). Listed y.desc []) l → l ≡ []
  unlisted [] h = refl
  unlisted (y ∷ l) h = absurd h.0

  -- For a device that returns only the properties in `.proplist`, the collection of the PoE metrics
  -- sends no metric, whatever its metrics are: it asks for no `name` and leaves out the sentences
  -- without one.
  pub collect_poe_silent :
      (metrics : List (PropertyMetric F)) (sc : Scope) (s : S) → (collect_poe x metrics sc s).2 ≡ []
  unfolding collect_poe collect_poe_for collect_named strip_prefix split contains equal
  collect_poe_silent metrics sc s =
      let proplist : List Bytes =
        codes "poe-out-current" ∷ codes "poe-out-voltage" ∷ codes "poe-out-power" ∷ [] in
      let good : Good true [] (collect_poe x metrics sc) = fetch_restricted-Good _ _ (λ reply a.
        first_row-Good true [] reply _ (λ m.
          fetch_restricted-Good _ _ (λ reply' a'. unnamed-rows proplist reply'.re _ refl a'))) in
      unlisted (collect_poe x metrics sc s).2 (good.runs s).1
