-- ===== src/Feature/Remote.antt =====
-- The client that the collectors are given: `CollectorContext.Run` of internal/metrics/context.go on
-- the session of Client/Session. The functions of the libraries are parameters.
use mikrotik_exporter.Prelude.{ℕ, Option, none, some, List, refl, Bytes}
use mikrotik_exporter.Proto.Writer.{Sink}
use mikrotik_exporter.Client.Reply.{Reply, empty_reply}
use mikrotik_exporter.Client.Reply.Total.{IsDone}
use mikrotik_exporter.Client.Session.{Client, ClientError, run}
use mikrotik_exporter.Client.Session.Laws.{run-IsDone}
use mikrotik_exporter.Convert.Numbers.{Floats}
use mikrotik_exporter.Feature.Base.{Response, refused, answered, External}
use mikrotik_exporter.Feature.Base.Laws.{IsAnswer, Answers}

-- The functions of the libraries that the collectors call.
pub record Library (F : Type 0) : Type 0 where
  pub floats : Floats F
  pub time_parse : Bytes → Bytes → Option F
  pub ago : ℕ → F
  pub thousandth : F → F
  pub quote : Bytes → Bytes

-- An error wins over a reply; a nil reply without an error, which does not occur, is an empty one.
abbrev pub response_of :
    {E : Type 0} → Option Reply → Option (ClientError E) → Response (ClientError E)
response_of r (some e) = refused e
response_of (some r) none = answered r
response_of none none = answered empty_reply

module _ {W E : Type 0} (ops : Sink W E) (respond : W → W × Bytes) (decode : Bytes → Option Bytes)
    (md5 : Bytes → Bytes) where
  -- `Run` of the context.
  unfoldable pub context_run : Client W E → List Bytes → Client W E × Response (ClientError E)
  context_run c words = let (c', r, e) = run ops respond decode md5 c words in (c', response_of r e)

  pub context_run-IsAnswer :
      (c : Client W E) (words : List Bytes) → IsAnswer (context_run c words).1
  unfolding context_run
  context_run-IsAnswer c words =
      go (run ops respond decode md5 c words).1 (run ops respond decode md5 c words).2
        (run-IsDone ops respond decode md5 c words)
    where
      go : (r : Option Reply) (e : Option (ClientError E)) → IsDone r e → IsAnswer (response_of r e)
      go r (some e) h = tt
      go (some r) none h = h
      go none none h = absurd (h refl)

  -- The collectors' client on a session.
  unfoldable pub client_external :
      {F : Type 0} → Library F → External (Client W E) (ClientError E) F
  client_external lib = record {
    floats = lib.floats;
    ask = context_run;
    time_parse = lib.time_parse;
    ago = lib.ago;
    thousandth = lib.thousandth;
    quote = lib.quote;
  }

  pub client_external-Answers : {F : Type 0} (lib : Library F) → Answers (client_external lib)
  unfolding client_external
  client_external-Answers lib c words = context_run-IsAnswer c words
