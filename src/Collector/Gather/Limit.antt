-- ===== src/Collector/Gather/Limit.antt =====
-- When `gatherMetrics` gives up, and what it reports if it does not.
use mikrotik_exporter.Prelude.{
  ℕ, zero, suc, ◌+◌, ◌<◌, Bool, true, false, ◌||◌, Option, none, some, List, [], ◌∷◌, ◌++◌, ◌≡◌,
  refl, ◌∙◌, arith, ◌==◌, Bytes, add64, word_size, length, append_assoc, append-nil, Bool-cases,
  inl, inr,
}
use mikrotik_exporter.Collector.Gather.{
  CollectError, collect_error, too_many_errors, DeviceCollectorRc, Gathered, gather, gather_step,
  gather_metrics, stop_after_errors,
}
use mikrotik_exporter.Collector.Gather.Counts.{
  walk, walk_step, begins_failed, has_five_failed, failures, gave_up, gave_up-append, reaches_five,
  reaches_five-some, reaches_five_5,
}

not-at-limit : (n m : ℕ) → n + suc (suc m) ≡ 5 → (suc n == stop_after_errors) ≡ false
not-at-limit n m l = ground (arith, l)

add64_zero : (errors : ℕ) → errors < word_size → errors ≡ add64 errors 0
add64_zero errors w = omega (arith, w)

add64_twice : (errors k : ℕ) → add64 (add64 errors 1) k ≡ add64 errors (suc k)
add64_twice errors k = omega arith

module _ {S E : Type 0} (is_done : S → Bool) where
  -- The rest of the loop gives up where five failures in a row are reached.
  abbrev RestGivesUp : List (DeviceCollectorRc S E) → Type 0
  RestGivesUp rest =
      (s : S) (errors n m : ℕ) (result : List (CollectError E))
      → n + suc m ≡ 5
      → gave_up (gather is_done rest s errors n result).result
        ≡ (gave_up result || reaches_five (suc m) (walk is_done rest s).0)

  gather_step-gives_up :
      (name : Bytes) (r : S × Option E) (rest : List (DeviceCollectorRc S E))
      → RestGivesUp rest
      → (errors n m : ℕ) (result : List (CollectError E)) → n + suc m ≡ 5
      → gave_up
          (gather_step is_done name r errors n result
            (λ s e k y. gather is_done rest s e k y)).result
        ≡ (gave_up result
            || reaches_five (suc m) (walk_step is_done name r (λ s. walk is_done rest s)).0)
  unfolding gather_step walk_step reaches_five has_five_failed begins_failed gave_up
  gather_step-gives_up name (s, none) rest ih errors n m result l =
      ground (arith, ih s errors 0 4 result refl, reaches_five_5 (walk is_done rest s).0)
  gather_step-gives_up name (s, some x) rest ih errors n zero result l =
      let at_limit : (suc n == stop_after_errors) ≡ true = ground (arith, l) in
      let given_up = gave_up-append (result ++ collect_error name x ∷ []) (too_many_errors ∷ []) in
      rw at_limit (elim (Bool-cases (is_done s)) [
        | inl e ↦ rw e (ground (arith, given_up))
        | inr e ↦ rw e (ground (arith, given_up))
      ])
  gather_step-gives_up name (s, some x) rest ih errors n (suc m) result l = ground (
    arith,
    gave_up-append result (collect_error name x ∷ []),
    ih s (add64 errors 1) (suc n) m (result ++ collect_error name x ∷ []) (omega (arith, l)),
    reaches_five-some (suc m) name x (walk is_done rest s).0 (omega (arith, l)),
  )

  gather-gives_up : (drcs : List (DeviceCollectorRc S E)) → RestGivesUp drcs
  unfolding gather walk reaches_five has_five_failed begins_failed
  gather-gives_up [] s errors n m result l = ground arith
  gather-gives_up (drc ∷ rest) s errors n m result l =
      gather_step-gives_up drc.name (drc.collect drc.feature_conf s) rest
        (λ s e k m y q. gather-gives_up rest s e k m y q) errors n m result l

  -- `gatherMetrics` returns `ErrTooManyErrors` exactly if five collectors in a row fail among those
  -- that would be run without the limit.
  pub gather_metrics-gives_up :
      (drcs : List (DeviceCollectorRc S E)) (s : S) (errors : ℕ)
      → gave_up (gather_metrics is_done drcs s errors).result
        ≡ has_five_failed (walk is_done drcs s).0
  unfolding gather_metrics gave_up
  gather_metrics-gives_up drcs s errors =
      gather-gives_up drcs s errors 0 4 [] (omega arith) ∙ reaches_five_5 (walk is_done drcs s).0

  -- The loop that does not give up runs the whole walk and counts its failures.
  abbrev Complete : List (Bytes × Option E) × S → ℕ → List (CollectError E) → Gathered S E → Type 0
  Complete (es, last) errors result out = out ≡ record {
    state = last;
    errors = add64 errors (length (failures es));
    result = result ++ failures es;
  }

  abbrev RestComplete : List (DeviceCollectorRc S E) → Type 0
  RestComplete rest =
      (s : S) (errors n m : ℕ) (result : List (CollectError E))
      → n + suc m ≡ 5
      → errors < word_size
      → reaches_five (suc m) (walk is_done rest s).0 ≡ false
      → Complete (walk is_done rest s) errors result (gather is_done rest s errors n result)

  gather_step-Complete :
      (name : Bytes) (r : S × Option E) (rest : List (DeviceCollectorRc S E))
      → RestComplete rest
      → (errors n m : ℕ) (result : List (CollectError E)) → n + suc m ≡ 5
      → errors < word_size
      → reaches_five (suc m) (walk_step is_done name r (λ s. walk is_done rest s)).0 ≡ false
      → Complete
          (walk_step is_done name r (λ s. walk is_done rest s))
          errors
          result
          (gather_step is_done name r errors n result (λ s e k y. gather is_done rest s e k y))
  unfolding gather_step walk_step failures reaches_five has_five_failed begins_failed
  gather_step-Complete name (s, none) rest ih errors n m result l w h =
      elim (Bool-cases (is_done s)) [
        | inl e ↦ rw e (cc (append-nil result, add64_zero errors w))
        | inr e ↦ rw e (
            ih s errors 0 4 result (omega arith) w
              (ground (arith, h, e, reaches_five_5 (walk is_done rest s).0)))
      ]
  gather_step-Complete name (s, some x) rest ih errors n zero result l w h =
      absurd (elim (Bool-cases (is_done s)) [
        | inl e ↦ ground (arith, h, e)
        | inr e ↦ ground (arith, h, e)
      ])
  gather_step-Complete name (s, some x) rest ih errors n (suc m) result l w h =
      elim (Bool-cases (is_done s)) [
        | inl e ↦ rw (e, not-at-limit n m l) refl
        | inr e ↦
            let next =
              ih s (add64 errors 1) (suc n) m (result ++ collect_error name x ∷ [])
                (omega (arith, l)) (omega arith)
                (ground (
                  arith,
                  h,
                  e,
                  reaches_five-some (suc m) name x (walk is_done rest s).0 (omega (arith, l)),
                )) in
            rw (e, not-at-limit n m l)
              (cc (
                next,
                add64_twice errors (length (failures (walk is_done rest s).0)),
                append_assoc result (collect_error name x ∷ []) (failures (walk is_done rest s).0),
              ))
      ]

  gather-Complete : (drcs : List (DeviceCollectorRc S E)) → RestComplete drcs
  unfolding gather walk failures
  gather-Complete [] s errors n m result l w h = cc (append-nil result, add64_zero errors w)
  gather-Complete (drc ∷ rest) s errors n m result l w h =
      gather_step-Complete drc.name (drc.collect drc.feature_conf s) rest
        (λ s e k j y q u v. gather-Complete rest s e k j y q u v) errors n m result l w h

  -- Where no five collectors in a row fail and the device's counter is the pattern of an int64,
  -- `gatherMetrics` runs them all up to the one behind which
  -- the context is done, adds the number of the failed ones to the device's counter, and returns
  -- their errors in order.
  pub gather_metrics-Complete :
      (drcs : List (DeviceCollectorRc S E)) (s : S) (errors : ℕ)
      → errors < word_size
      → has_five_failed (walk is_done drcs s).0 ≡ false
      → gather_metrics is_done drcs s errors ≡ record {
        state = (walk is_done drcs s).1;
        errors = add64 errors (length (failures (walk is_done drcs s).0));
        result = failures (walk is_done drcs s).0;
      }
  unfolding gather_metrics
  gather_metrics-Complete drcs s errors w h =
      gather-Complete drcs s errors 0 4 [] (omega arith) w
        (reaches_five_5 (walk is_done drcs s).0 ∙ h)
