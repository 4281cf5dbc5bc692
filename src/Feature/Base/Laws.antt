-- ===== src/Feature/Base/Laws.antt =====
-- Actions that do not panic and send only metrics of given descriptions.
use mikrotik_exporter.Prelude.{
  ℕ, Bool, true, false, ◌&&◌, Option, none, some, List, [], ◌∷◌, ◌++◌, ◌≡◌, ◌==◌, inl, inr, arith,
  if◌then◌else◌, length, All, All-append, Bytes, Dict,
}
use mikrotik_exporter.Proto.Sentence.{Sentence}
use mikrotik_exporter.Client.Reply.{Reply}
use mikrotik_exporter.Client.Reply.Total.{HasDone}
use mikrotik_exporter.Metrics.Context.{Desc, Metric}
use mikrotik_exporter.Metrics.Property.Labels.{Listed, Listed-append_left, Listed-append_right}
use mikrotik_exporter.Feature.Base.{
  Response, refused, answered, External, Errors, Act, pure, panic, ◌>>=◌, send, send_all, for_each,
  for_first, join, unless_error, done_map,
}

-- A value, where a panic is not allowed.
abbrev pub Returns : {A : Type 0} → Bool → Option A → Type 0
Returns true a = Unit
Returns false none = ⊥
Returns false (some v) = Unit

-- As many label names in each description.
abbrev pub fits : ℕ → List Desc → Bool
fits n [] = true
fits n (d ∷ ds) = (length d.labels == n) && fits n ds

-- Each description of the one is one of the other.
pub record Within (ds es : List Desc) : Type 0 where
  pub at : (d : Desc) → Listed d ds → Listed d es

pub Within-self : {ds : List Desc} → Within ds ds
Within-self = record { at = λ d l. l }

pub here : {ds : List Desc} (more : List Desc) → Within ds (ds ++ more)
here {ds} more = record { at = λ d l. Listed-append_left d ds more l }

pub there : {ds es : List Desc} (front : List Desc) → Within ds es → Within ds (front ++ es)
there {ds} {es} front w = record { at = λ d l. Listed-append_right d front es (w.at d l) }

pub fits-Listed :
    (n : ℕ) (ds : List Desc) (d : Desc) → fits n ds ≡ true → Listed d ds → length d.labels ≡ n
fits-Listed n [] d h l = absurd l
fits-Listed n (x ∷ ds) d h (inl e) = rw⁻¹ e (ground (arith, h))
fits-Listed n (x ∷ ds) d h (inr l) = fits-Listed n ds d (ground (arith, h)) l

-- The answers of the client have a final sentence.
abbrev pub IsAnswer : {E : Type 0} → Response E → Type 0
IsAnswer (refused e) = Unit
IsAnswer (answered reply) = HasDone reply.done

abbrev pub Answers : {S E F : Type 0} → External S E F → Type 0
Answers {S} x = (s : S) (words : List Bytes) → IsAnswer (x.ask s words).1

pub Returns-some : {A : Type 0} (may : Bool) (a : A) → Returns may (some a)
Returns-some true a = tt
Returns-some false a = tt

Returns-none : (A B : Type 0) (may : Bool) → Returns {A = A} may none → Returns {A = B} may none
Returns-none A B true r = tt
Returns-none A B false r = absurd r

-- The action sends metrics of these descriptions only, and panics only where that is allowed.
pub record Good {S F A : Type 0} (may : Bool) (ds : List Desc) (m : Act S F A) : Type 0 where
  pub runs : (s : S) → Returns may (m s).0 × All (λ (x : Metric F). Listed x.desc ds) (m s).2

module _ {S F : Type 0} (may : Bool) (ds : List Desc) where
  pub pure-Good : {A : Type 0} (a : A) → Good {S = S} {F = F} may ds (pure a)
  pure-Good a = record { runs = λ s. (Returns-some may a, tt) }

  pub bind-Good :
      {A B : Type 0} (m : Act S F A) (k : A → Act S F B)
      → Good may ds m
      → ((a : A) → Good may ds (k a))
      → Good may ds (m >>= k)
  unfolding ◌>>=◌
  bind-Good {A} {B} m k g h = record { runs = λ s. go s (m s).0 (g.runs s) }
    where
      go :
          (s : S) (a : Option A)
          → Returns may a × All (λ (x : Metric F). Listed x.desc ds) (m s).2
          → let out : Option B × S × List (Metric F) = elim a [
            | none ↦ (none, (m s).1, (m s).2)
            | some v ↦ let (b, s'', more) = k v (m s).1 in (b, s'', (m s).2 ++ more)
          ] in
            Returns may out.0 × All (λ (x : Metric F). Listed x.desc ds) out.2
      go s none (r, l) = (Returns-none A B may r, l)
      go s (some v) (r, l) =
          let (r', l') = (h v).runs (m s).1 in
          (r', All-append (λ (x : Metric F). Listed x.desc ds) (m s).2 (k v (m s).1).2 l l')

  pub send-Good :
      (x : Metric F)
      → length x.label_values ≡ length x.desc.labels
      → Listed x.desc ds
      → Good {S = S} may ds (send x)
  unfolding send
  send-Good x e l =
      let same : (length x.label_values == length x.desc.labels) ≡ true = ground (arith, e) in
      record { runs = λ s. rw same (Returns-some may tt, (l, tt)) }

  pub send_all-Good :
      (xs : List (Metric F))
      → All (λ (x : Metric F). (length x.label_values ≡ length x.desc.labels) × Listed x.desc ds) xs
      → Good {S = S} may ds (send_all xs)
  unfolding send_all
  send_all-Good [] h = pure-Good tt
  send_all-Good (x ∷ xs) h =
      bind-Good (send x) (λ u. send_all xs) (send-Good x h.0.0 h.0.1) (λ u. send_all-Good xs h.1)

module _ {S F : Type 0} (ds : List Desc) where
  pub panic-Good : {A : Type 0} → Good {S = S} {F = F} {A = A} true ds panic
  panic-Good = record { runs = λ s. (tt, tt) }

  send_may-Good : (x : Metric F) → Listed x.desc ds → Good {S = S} true ds (send x)
  unfolding send
  send_may-Good x l = record { runs = λ s. go s (length x.label_values == length x.desc.labels) }
    where
      go :
          (s : S) (b : Bool)
          → let out : Option Unit × S × List (Metric F) =
              if b then (some tt, s, x ∷ []) else (none, s, []) in
            Returns true out.0 × All (λ (y : Metric F). Listed y.desc ds) out.2
      go s true = (tt, (l, tt))
      go s false = (tt, tt)

  pub send_all_may-Good :
      (xs : List (Metric F))
      → All (λ (x : Metric F). Listed x.desc ds) xs
      → Good {S = S} true ds (send_all xs)
  unfolding send_all
  send_all_may-Good [] h = pure-Good true ds tt
  send_all_may-Good (x ∷ xs) h =
      bind-Good true ds (send x) (λ u. send_all xs) (send_may-Good x h.0)
        (λ u. send_all_may-Good xs h.1)

module _ {S E F : Type 0} (may : Bool) (ds : List Desc) where
  abbrev Body : Act S F (Errors E) → Type 0
  Body m = Good may ds m

  pub for_each-Good :
      {A : Type 0} (xs : List A) (body : A → Act S F (Errors E))
      → ((a : A) → Body (body a))
      → Body (for_each xs body)
  unfolding for_each
  for_each-Good [] body h = pure-Good may ds []
  for_each-Good (a ∷ rest) body h = bind-Good may ds (body a) _ (h a) (λ es.
      bind-Good may ds (for_each rest body) _ (for_each-Good rest body h)
        (λ fs. pure-Good may ds (es ++ fs)))

  stop-Good :
      (es : Errors E) (n : Act S F (Errors E))
      → Body n
      → Body (elim es [ [] ↦ n | e ∷ es' ↦ pure (e ∷ es') ])
  stop-Good [] n h = h
  stop-Good (e ∷ es) n h = pure-Good may ds (e ∷ es)

  pub for_first-Good :
      {A : Type 0} (xs : List A) (body : A → Act S F (Errors E))
      → ((a : A) → Body (body a))
      → Body (for_first xs body)
  unfolding for_first
  for_first-Good [] body h = pure-Good may ds []
  for_first-Good (a ∷ rest) body h =
      bind-Good may ds (body a) _ (h a)
        (λ es. stop-Good es (for_first rest body) (for_first-Good rest body h))

  pub join-Good : (m n : Act S F (Errors E)) → Body m → Body n → Body (join m n)
  unfolding join
  join-Good m n g h =
      bind-Good may ds m _ g (λ es. bind-Good may ds n _ h (λ fs. pure-Good may ds (es ++ fs)))

  pub unless_error-Good : (m n : Act S F (Errors E)) → Body m → Body n → Body (unless_error m n)
  unfolding unless_error
  unless_error-Good m n g h = bind-Good may ds m _ g (λ es. stop-Good es n h)

  pub done_map-Good :
      (reply : Reply) (k : Dict Bytes → Act S F (Errors E))
      → HasDone reply.done
      → ((d : Dict Bytes) → Body (k d))
      → Body (done_map reply k)
  unfolding done_map
  done_map-Good reply k a h = go reply.done a
    where
      go :
          (done : Option Sentence)
          → HasDone done
          → Body (elim done [ none ↦ panic | some d ↦ k d.map ])
      go none a = absurd a
      go (some d) a = h d.map
