-- ===== src/Collector/Gather/Counts.antt =====
-- What the loop of `gatherMetrics` counts and when it gives up.
use mikrotik_exporter.Prelude.{
  ℕ, zero, suc, ◌≤◌, Bool, true, false, ◌||◌, ◌&&◌, Option, none, some, List, [], ◌∷◌, ◌++◌, ◌≡◌,
  refl, arith, if◌then◌else◌, Bytes,
}
use mikrotik_exporter.Collector.Gather.{
  CollectError, collect_error, too_many_errors, DeviceCollectorRc,
}

-- What a walk over all collectors that never gives up sees: the name and the outcome of each, up to
-- the one behind which the context is done, and the state it ends in.
module _ {S E : Type 0} (is_done : S → Bool) where
  unfoldable pub walk_step :
      Bytes → S × Option E → (S → List (Bytes × Option E) × S) → List (Bytes × Option E) × S
  walk_step name (s, e) next =
      let (es, last) = next s in if is_done s then ((name, e) ∷ [], s) else ((name, e) ∷ es, last)

  unfoldable pub walk : List (DeviceCollectorRc S E) → S → List (Bytes × Option E) × S
  walk [] s = ([], s)
  walk (drc ∷ rest) s = walk_step drc.name (drc.collect drc.feature_conf s) (λ s'. walk rest s')

module _ {E : Type 0} where
  abbrev pub has_failed : Bytes × Option E → Bool
  has_failed (name, some e) = true
  has_failed (name, none) = false

  -- The first `n` are there and failed.
  unfoldable pub begins_failed : ℕ → List (Bytes × Option E) → Bool
  begins_failed zero es = true
  begins_failed (suc n) [] = false
  begins_failed (suc n) (e ∷ es) = has_failed e && begins_failed n es

  -- Somewhere five in a row failed.
  unfoldable pub has_five_failed : List (Bytes × Option E) → Bool
  has_five_failed [] = false
  has_five_failed (e ∷ es) = begins_failed 5 (e ∷ es) || has_five_failed es

  -- The errors of those that failed, in order.
  unfoldable pub failures : List (Bytes × Option E) → List (CollectError E)
  failures [] = []
  failures ((name, none) ∷ es) = failures es
  failures ((name, some e) ∷ es) = collect_error name e ∷ failures es

  -- `ErrTooManyErrors` is among the joined errors.
  unfoldable pub gave_up : List (CollectError E) → Bool
  gave_up [] = false
  gave_up (collect_error name e ∷ es) = gave_up es
  gave_up (too_many_errors ∷ es) = true

  pub gave_up-append :
      (xs ys : List (CollectError E)) → gave_up (xs ++ ys) ≡ (gave_up xs || gave_up ys)
  unfolding gave_up
  gave_up-append [] ys = refl
  gave_up-append (collect_error name e ∷ xs) ys = gave_up-append xs ys
  gave_up-append (too_many_errors ∷ xs) ys = refl

  -- Fewer failures in front are asked for.
  begins_failed-less :
      (m k : ℕ) (es : List (Bytes × Option E))
      → m ≤ k
      → begins_failed k es ≡ true
      → begins_failed m es ≡ true
  unfolding begins_failed
  begins_failed-less zero k es l h = refl
  begins_failed-less (suc m) zero es l h = absurd (omega (arith, l))
  begins_failed-less (suc m) (suc k) [] l h = cc
  begins_failed-less (suc m) (suc k) ((name, some e) ∷ es) l h =
      begins_failed-less m k es (omega (arith, l)) h
  begins_failed-less (suc m) (suc k) ((name, none) ∷ es) l h = cc

  -- Five failures in a row are reached, the first `m` of them at once.
  unfoldable pub reaches_five : ℕ → List (Bytes × Option E) → Bool
  reaches_five m es = begins_failed m es || has_five_failed es

  pub reaches_five-none :
      (m : ℕ) (name : Bytes) (es : List (Bytes × Option E))
      → reaches_five (suc m) ((name, none) ∷ es) ≡ has_five_failed es
  unfolding reaches_five has_five_failed begins_failed
  reaches_five-none m name es = refl

  pub reaches_five-some :
      (m : ℕ) (name : Bytes) (x : E) (es : List (Bytes × Option E))
      → m ≤ 4
      → reaches_five (suc m) ((name, some x) ∷ es) ≡ reaches_five m es
  unfolding reaches_five has_five_failed begins_failed
  reaches_five-some m name x es l = ground (arith, begins_failed-less m 4 es l)

  pub reaches_five_5 : (es : List (Bytes × Option E)) → reaches_five 5 es ≡ has_five_failed es
  unfolding reaches_five has_five_failed begins_failed
  reaches_five_5 [] = refl
  reaches_five_5 (e ∷ es) = ground arith
