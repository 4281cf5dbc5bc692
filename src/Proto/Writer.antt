-- ===== src/Proto/Writer.antt =====
-- The writer of routeros/proto/writer.go over a buffered sink, which is a library's (`bufio.Writer`):
-- the record `Sink` gives its two calls, each with the error that it returns, if any.
pub mod Laws
use mikrotik_exporter.Prelude.{
  Bool, true, false, Option, none, some, List, [], ◌∷◌, ◌++◌, Bytes, length,
}
use mikrotik_exporter.Proto.Length.{encode_length}

pub record Sink (W E : Type 0) : Type 0 where
  pub put : W → Bytes → W × Option E
  pub push : W → W × Option E

-- `locked` is the mutex that one sentence holds from its first word to its end.
pub record Writer (W E : Type 0) : Type 0 where
  pub sink : W
  pub error : Option E
  pub locked : Bool

module _ {W E : Type 0} (ops : Sink W E) where
  unfoldable pub write : Writer W E → Bytes → Writer W E
  write w b = elim w.error [
    | some _ ↦ w
    | none ↦ let (s, e) = ops.put w.sink b in record w { sink = s; error = e }
  ]

  unfoldable pub flush : Writer W E → Writer W E
  flush w = elim w.error [
    | some _ ↦ w
    | none ↦ let (s, e) = ops.push w.sink in record w { sink = s; error = e }
  ]

  unfoldable pub write_word : Writer W E → Bytes → Writer W E
  write_word w word = write (write w (encode_length (length word))) word

  unfoldable pub begin_sentence : Writer W E → Writer W E
  begin_sentence w = record w { locked = true }

  unfoldable pub end_sentence : Writer W E → Writer W E × Option E
  end_sentence w = let w' = flush (write_word w []) in (record w' { locked = false }, w'.error)

  -- The loop of `RunArgs` (routeros/run.go).
  unfoldable pub write_words : Writer W E → List Bytes → Writer W E
  write_words w [] = w
  write_words w (word ∷ words) = write_words (write_word w word) words

  -- A whole sentence, as `RunArgs` and `endCommandSync` write it.
  unfoldable pub write_sentence : Writer W E → List Bytes → Writer W E × Option E
  write_sentence w words = end_sentence (write_words (begin_sentence w) words)
