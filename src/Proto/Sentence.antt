-- ===== src/Proto/Sentence.antt =====
-- Sentences (routeros/proto/sentence.go) and what one received word adds to them, the body of the
-- loop of `ReadSentence` (routeros/proto/reader.go) behind its test for the empty word.
use mikrotik_exporter.Prelude.{
  none, some, [], ◌∷◌, ◌==◌, if◌then◌else◌, Bytes, codes, is_empty, strip_prefix, cut, Dict, insert,
}
use mikrotik_exporter.Proto.Length.{invalid_word, Result, ok, err}

pub record Sentence : Type 0 where
  pub map : Dict Bytes
  pub word : Bytes
  pub tag : Bytes

-- `NewSentence`.
abbrev pub new_sentence : Sentence
new_sentence = record { map = []; word = []; tag = [] }

abbrev pub tag_prefix : Bytes
tag_prefix = codes ".tag="

-- `=key=value` or `=key`, given the bytes behind the first `=`.
unfoldable pub add_pair : Sentence → Bytes → Sentence
add_pair sen t = elim (cut b'=' t) [
  | none ↦ record sen { map = insert t [] sen.map }
  | some (key, value) ↦ record sen { map = insert key value sen.map }
]

-- A word behind the first that is no tag. `buf[0]` is there: the word is not empty.
unfoldable pub add_attribute : Sentence → Bytes → Result Sentence
add_attribute sen [] = err (invalid_word [])
add_attribute sen (c ∷ t) = if c == b'=' then ok (add_pair sen t) else err (invalid_word (c ∷ t))

unfoldable pub add_word : Sentence → Bytes → Result Sentence
add_word sen buf =
    if is_empty sen.word
    then ok (record sen { word = buf })
    else elim (strip_prefix tag_prefix buf) [
      | some tag ↦ ok (record sen { tag = tag })
      | none ↦ add_attribute sen buf
    ]
