-- ===== src/Tests/Samples.antt =====
-- A sink that keeps what it is given, a decoder, and floats, as the parameters of the examples.
use mikrotik_exporter.Prelude.{ℕ, Option, none, some, ◌++◌, ◌≡◌, refl, Bytes, pos, negsuc}
use mikrotik_exporter.Proto.Writer.{Sink}
use mikrotik_exporter.Proto.Writer.Laws.{Keeps}
use mikrotik_exporter.Proto.RoundTrip.{IsAscii}
use mikrotik_exporter.Convert.Numbers.{Floats, unsigned}

-- A sink without errors: the bytes that were written.
abbrev pub kept_bytes : Sink Bytes ℕ
kept_bytes = record { put = λ s b. (s ++ b, none); push = λ s. (s, none) }

abbrev pub content_of : Bytes → Bytes
content_of s = s

abbrev pub kept_bytes-Keeps : Keeps kept_bytes content_of
kept_bytes-Keeps = record {
  put_none = λ s b. refl;
  put_content = λ s b. refl;
  push_none = λ s. refl;
  push_content = λ s. refl;
}

-- A decoder that leaves every byte as it is.
abbrev pub plain : Bytes → Option Bytes
plain b = some b

abbrev pub plain_kept : (b : Bytes) → IsAscii b → plain b ≡ some b
plain_kept b h = refl

-- Whole numbers as floats.
abbrev pub whole : Floats ℕ
whole = record {
  zero_f = 0;
  one_f = 1;
  nan_f = 999;
  seconds = λ n. n;
  of_int = λ z. elim z [ pos n ↦ n | negsuc n ↦ 0 ];
  parse_float = unsigned;
}
