-- ===== src/Proto/Reader.antt =====
-- `readWord` and `ReadSentence` of routeros/proto/reader.go. The Windows-1250 decoder is a library's:
-- it is the parameter `decode`, which gives `none` where the library returns an error.
pub mod Total
use mikrotik_exporter.Prelude.{
  ℕ, zero, suc, ◌+◌, Option, none, some, [], if◌then◌else◌, length, Bytes, is_empty,
}
use mikrotik_exporter.Proto.Length.{
  Read, Result, ok, err, undecodable, out_of_fuel, ◌>>=◌, pure, read_exact, read_length,
}
use mikrotik_exporter.Proto.Sentence.{Sentence, new_sentence, add_word}

abbrev pub lift : {A : Type 0} → Result A → Read A
lift r s = (r, s)

module _ (decode : Bytes → Option Bytes) where
  abbrev pub decoded : Bytes → Result Bytes
  decoded b = elim (decode b) [ none ↦ err (undecodable b) | some buf ↦ ok buf ]

  unfoldable pub read_word : Read Bytes
  read_word = do l ← read_length; b ← read_exact l; lift (decoded b)

  -- The body of the loop of `ReadSentence`; `again` is the rest of the loop.
  abbrev pub word_step : (Sentence → Read Sentence) → Sentence → Bytes → Read Sentence
  word_step again sen buf =
      if is_empty buf then pure sen else do sen' ← lift (add_word sen buf); again sen'

  -- The loop, with fuel.
  unfoldable pub read_words : ℕ → Sentence → Read Sentence
  read_words zero sen s = (err out_of_fuel, s)
  read_words (suc n) sen s = (read_word >>= word_step (λ sen'. read_words n sen') sen) s

  -- Each word takes a byte at least, so the fuel is enough.
  unfoldable pub read_sentence : Read Sentence
  read_sentence s = read_words (length s + 1) new_sentence s
