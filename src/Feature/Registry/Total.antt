-- ===== src/Feature/Registry/Total.antt =====
-- The registered collectors on the client of a session, and their names.
use mikrotik_exporter.Prelude.{Bool, Option, none, some, List, ◌++◌, ◌≡◌, ◌≢◌, All, Bytes}
use mikrotik_exporter.Proto.Writer.{Sink}
use mikrotik_exporter.Client.Session.{Client, ClientError}
use mikrotik_exporter.Metrics.Context.{Desc, Metric}
use mikrotik_exporter.Metrics.Property.Labels.{Listed}
use mikrotik_exporter.Feature.Undescribed.{may_panic, undescribed}
use mikrotik_exporter.Feature.Base.{Scope, RouterOsCollector}
use mikrotik_exporter.Feature.Base.Laws.{Returns}
use mikrotik_exporter.Feature.Base.Requests.{IsSound}
use mikrotik_exporter.Feature.Remote.{Library, client_external, client_external-Answers}
use mikrotik_exporter.Feature.Registry.{instanate_collector}
use mikrotik_exporter.Feature.Registry.Sound.{instanate_collector-IsSound}

IsSound-made :
    {S E F : Type 0} (may : Bool) (ds : List Desc) (r : Option (RouterOsCollector S E F))
    → IsSound may ds r
    → r ≢ none
IsSound-made may ds none h = absurd h
IsSound-made may ds (some c) h = cc

module _ {W E F : Type 0} (ops : Sink W E) (respond : W → W × Bytes) (decode : Bytes → Option Bytes)
    (md5 : Bytes → Bytes) (lib : Library F) where
  -- The constructor of a registered collector does not panic: no chain of calls that makes a metric
  -- sets a converter or a default that the metric's type refuses.
  pub instanate_collector_total :
      (name : Bytes) (r : Option (RouterOsCollector (Client W E) (ClientError E) F))
      → instanate_collector (client_external ops respond decode md5 lib) name ≡ some r
      → r ≢ none
  instanate_collector_total name r e = IsSound-made (may_panic name) (undescribed name) r (
      instanate_collector-IsSound (client_external ops respond decode md5 lib)
        (client_external-Answers ops respond decode md5 lib) name r e)

  -- Whatever the device sends on a session, in every scope: `Collect` of a registered collector does
  -- not panic, unless `may_panic name`, and every metric that it sends has a description that the
  -- collector describes or that is among `undescribed name`.
  pub collect_total :
      (name : Bytes) (c : RouterOsCollector (Client W E) (ClientError E) F) (sc : Scope)
      (client : Client W E)
      → instanate_collector (client_external ops respond decode md5 lib) name ≡ some (some c)
      → Returns (may_panic name) (c.collect sc client).0
        × All
            (λ (x : Metric F). Listed x.desc (undescribed name ++ c.describe))
            (c.collect sc client).2
  collect_total name c sc client e =
      let good =
        instanate_collector-IsSound (client_external ops respond decode md5 lib)
          (client_external-Answers ops respond decode md5 lib) name (some c) e sc in
      good.runs client
