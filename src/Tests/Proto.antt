-- ===== src/Tests/Proto.antt =====
-- The framing on concrete words.
use mikrotik_exporter.Prelude.{
  ℕ, ◌≢◌, false, none, some, List, [], ◌∷◌, ◌++◌, ◌≡◌, refl, arith, Bytes, codes, All,
}
use mikrotik_exporter.Proto.Length.{ok, err, out_of_fuel, encode_length, read_length}
use mikrotik_exporter.Proto.Length.RoundTrip.{read_length-encode_length}
use mikrotik_exporter.Proto.Reader.{read_sentence}
use mikrotik_exporter.Proto.Reader.Total.{read_sentence_total}
use mikrotik_exporter.Proto.Writer.{Writer, write_sentence}
use mikrotik_exporter.Proto.Writer.Laws.{frame, write_sentence-frame, write_sentence-error}
use mikrotik_exporter.Proto.RoundTrip.{
  Part, pair, key_only, HasPlainKey, sentence_words, sentence_from, IsWireWord, read_sentence-frame,
}
use mikrotik_exporter.Tests.Samples.{kept_bytes, content_of, kept_bytes-Keeps, plain, plain_kept}

read_length-encode_length_example :
    read_length (encode_length 300 ++ codes "x") ≡ (ok 300, codes "x")
read_length-encode_length_example = read_length-encode_length 300 (codes "x")

-- An untagged sentence, with a value that has a `=` and a key without a value.
abbrev parts : List Part
parts = pair (codes "a") (codes "1=2") ∷ key_only (codes "b") ∷ []

abbrev words : List Bytes
words = sentence_words (codes "!re") parts

words-IsWireWord : All IsWireWord words
words-IsWireWord = ground arith

parts-HasPlainKey : All HasPlainKey parts
parts-HasPlainKey = ground arith

read_sentence-frame_example :
    read_sentence plain (frame words ++ codes "z")
    ≡ (ok (sentence_from (codes "!re") parts), codes "z")
read_sentence-frame_example =
    read_sentence-frame plain plain_kept (codes "!re") parts (codes "z") words-IsWireWord
      parts-HasPlainKey

read_sentence_total_example : (read_sentence plain (200 ∷ 1 ∷ [])).0 ≢ err out_of_fuel
read_sentence_total_example = read_sentence_total plain (200 ∷ 1 ∷ [])

abbrev fresh : Writer Bytes ℕ
fresh = record { sink = []; error = none; locked = false }

abbrev broken : Writer Bytes ℕ
broken = record { sink = codes "x"; error = some 7; locked = false }

write_sentence-frame_example :
    let (w, e) = write_sentence kept_bytes fresh words in
    (content_of w.sink ≡ content_of fresh.sink ++ frame words)
    × (w.error ≡ none)
    × (w.locked ≡ false)
    × (e ≡ none)
write_sentence-frame_example =
    write_sentence-frame kept_bytes content_of kept_bytes-Keeps fresh words refl

write_sentence-error_example :
    write_sentence kept_bytes broken words ≡ (record broken { locked = false }, some 7)
write_sentence-error_example = write_sentence-error kept_bytes broken words 7 refl
