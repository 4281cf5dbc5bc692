-- ===== src/Collector/Gather.antt =====
-- `gatherMetrics` of internal/collector/device_collector.go. A collector is an item of the
-- interface `RouterOSCollector` of internal/collectors/mod.go: given the configuration of its
-- feature it changes the state `S` of the collection (the client, the channel with the metrics, and
-- the world outside) and returns nil or an error. `is_done` tells whether the context is done.
pub mod Counts
pub mod Limit
use mikrotik_exporter.Prelude.{
  ℕ, suc, ◌+◌, Bool, true, false, Option, none, some, List, [], ◌∷◌, ◌++◌, if◌then◌else◌, ◌==◌,
  Bytes, add64,
}
use mikrotik_exporter.Config.Features.{FeatureConf}

abbrev pub stop_after_errors : ℕ
stop_after_errors = 5

-- The errors that `errors.Join` joins.
pub data CollectError (E : Type 0) : Type 0 where
  collect_error : Bytes → E → CollectError E
  too_many_errors : CollectError E

-- `deviceCollectorRC`.
pub record DeviceCollectorRc (S E : Type 0) : Type 0 where
  pub name : Bytes
  pub feature_conf : FeatureConf
  pub collect : FeatureConf → S → S × Option E

-- The state behind the loop, the total of failed collections, and the joined errors.
pub record Gathered (S E : Type 0) : Type 0 where
  pub state : S
  pub errors : ℕ
  pub result : List (CollectError E)

module _ {S E : Type 0} (is_done : S → Bool) where
  -- The body of the loop behind a collector's outcome, at a count `n` of failures in a row, with
  -- what the rest of the loop makes of the next state and counts.
  unfoldable pub gather_step :
      Bytes
      → S × Option E
      → ℕ
      → ℕ
      → List (CollectError E)
      → (S → ℕ → ℕ → List (CollectError E) → Gathered S E)
      → Gathered S E
  gather_step name (s, some x) errors n result next =
      let result' = result ++ collect_error name x ∷ [] in
      let errors' = add64 errors 1 in
      if suc n == stop_after_errors
      then record { state = s; errors = errors'; result = result' ++ too_many_errors ∷ [] }
      else if is_done s
      then record { state = s; errors = errors'; result = result' }
      else next s errors' (suc n) result'
  gather_step name (s, none) errors n result next =
      if is_done s
      then record { state = s; errors = errors; result = result }
      else next s errors 0 result

  -- `errors` is the pattern of an `int64`; `n` is below 5 at each entry.
  unfoldable pub gather :
      List (DeviceCollectorRc S E) → S → ℕ → ℕ → List (CollectError E) → Gathered S E
  gather [] s errors n result = record { state = s; errors = errors; result = result }
  gather (drc ∷ rest) s errors n result =
      gather_step drc.name (drc.collect drc.feature_conf s) errors n result
        (λ s' errors' n' result'. gather rest s' errors' n' result')

  -- `gatherMetrics`.
  unfoldable pub gather_metrics : List (DeviceCollectorRc S E) → S → ℕ → Gathered S E
  gather_metrics drcs s errors = gather drcs s errors 0 []
