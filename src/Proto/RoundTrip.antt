-- ===== src/Proto/RoundTrip.antt =====
-- The reader on what the writer wrote (routeros/proto): word by word, and a whole sentence.
use mikrotik_exporter.Prelude.{
  ℕ, zero, suc, ◌+◌, ◌%◌, ◌^◌, ◌≤◌, ◌<◌, Option, some, List, [], ◌∷◌, ◌++◌, ◌≡◌, refl, arith,
  append_assoc, ◌∙◌, ap, sym, length, length-append, take_append_self, drop_append_self, All, Bytes,
  is_empty, Dict, insert, Lacks, cut-append, cut-none, strip_prefix, strip_prefix-append, false,
  map,
}
use mikrotik_exporter.Proto.Length.{
  Result, ok, err, ◌>>=◌, bind_ok, read_exact, encode_length, read_length,
}
use mikrotik_exporter.Proto.Length.RoundTrip.{read_length-encode_length}
use mikrotik_exporter.Proto.Sentence.{
  Sentence, new_sentence, tag_prefix, add_pair, add_attribute, add_word,
}
use mikrotik_exporter.Proto.Reader.{lift, decoded, read_word, word_step, read_words, read_sentence}
use mikrotik_exporter.Proto.Writer.Laws.{word_frame, word_frames, frame}

read_exact-append : (w rest : Bytes) → read_exact (length w) (w ++ rest) ≡ (ok w, rest)
unfolding read_exact
read_exact-append w rest =
    ground (arith, length-append w rest, take_append_self w rest, drop_append_self w rest)

-- What a list of words makes of a sentence, up to the first word that is refused.
unfoldable pub add_words : Sentence → List Bytes → Result Sentence
add_words sen [] = ok sen
add_words sen (w ∷ ws) = elim (add_word sen w) [ ok sen' ↦ add_words sen' ws | err e ↦ err e ]

-- Reading ends as the words say: with their sentence and all of its frame consumed, or with the
-- error of the refused word.
abbrev pub Outcome : Result Sentence → Bytes → Result Sentence × Bytes → Type 0
Outcome (ok sen) rest x = x ≡ (ok sen, rest)
Outcome (err e) rest x = x.0 ≡ err e

abbrev pub IsAscii : Bytes → Type 0
IsAscii w = All (λ c. c < 128) w

-- A word that the wire carries unchanged and that does not end a sentence.
abbrev pub IsWireWord : Bytes → Type 0
IsWireWord w = (is_empty w ≡ false) × (length w < 2 ^ 32) × IsAscii w

module _ (decode : Bytes → Option Bytes)
    (ascii_kept : (b : Bytes) → IsAscii b → decode b ≡ some b) where
  read_word-word_frame :
      (w rest : Bytes)
      → length w < 2 ^ 32
      → IsAscii w
      → read_word decode (word_frame w ++ rest) ≡ (ok w, rest)
  unfolding read_word
  read_word-word_frame w rest short ascii =
      let e : length w % 2 ^ 32 ≡ length w = omega arith in
      let l = read_length-encode_length (length w) (w ++ rest) in
      let body = λ (l : ℕ). read_exact l >>= λ b. lift (decoded decode b) in
      rw (append_assoc (encode_length (length w)) w rest) (
        bind_ok read_length body (encode_length (length w) ++ (w ++ rest)) l
        ∙ rw e (
            bind_ok (read_exact (length w)) (λ b. lift (decoded decode b)) (w ++ rest)
              (read_exact-append w rest)
            ∙ rw (ascii_kept w ascii, decoded)))

  pub read_words-Outcome :
      (n : ℕ) (sen : Sentence) (ws : List Bytes) (rest : Bytes)
      → All IsWireWord ws
      → length ws < n
      → Outcome (add_words sen ws) rest (read_words decode n sen (frame ws ++ rest))
  unfolding read_words add_words
  read_words-Outcome zero sen ws rest h k = absurd (omega arith)
  read_words-Outcome (suc n) sen [] rest h k =
      bind_ok (read_word decode) (word_step decode (λ sen'. read_words decode n sen') sen)
        (word_frame [] ++ rest) (read_word-word_frame [] rest (omega arith) tt)
  read_words-Outcome (suc n) sen (w ∷ ws) rest h k =
      let again = λ (x : Sentence). read_words decode n x in
      let behind = frame ws ++ rest in
      let split : frame (w ∷ ws) ++ rest ≡ word_frame w ++ behind =
        append_assoc (word_frame w ++ word_frames ws) (word_frame []) rest
        ∙ append_assoc (word_frame w) (word_frames ws) (word_frame [] ++ rest)
        ∙ ap (λ x. word_frame w ++ x) (sym (append_assoc (word_frames ws) (word_frame []) rest)) in
      let first =
        bind_ok (read_word decode) (word_step decode again sen) (word_frame w ++ behind)
          (read_word-word_frame w behind h.0.1 h.0.2) in
      rw (split, first)
        (rw (h.0.0) (step (add_word sen w) (λ x. read_words-Outcome n x ws rest h.1 (omega arith))))
    where
      step :
          (r : Result Sentence)
          → ((x : Sentence)
              → Outcome (add_words x ws) rest (read_words decode n x (frame ws ++ rest)))
          → Outcome
              (elim r [ ok x ↦ add_words x ws | err e ↦ err e ])
              rest
              ((lift r >>= λ x. read_words decode n x) (frame ws ++ rest))
      step (ok x) ih = ih x
      step (err e) ih = refl

-- A word behind the first: `=key=value`, `=key` without a value, or the tag.
pub data Part : Type 0 where
  pair : Bytes → Bytes → Part
  key_only : Bytes → Part
  tag_part : Bytes → Part

abbrev pub part_word : Part → Bytes
part_word (pair k v) = b'=' ∷ (k ++ b'=' ∷ v)
part_word (key_only k) = b'=' ∷ k
part_word (tag_part t) = tag_prefix ++ t

-- The key ends where its sign `=` stands.
abbrev pub HasPlainKey : Part → Type 0
HasPlainKey (pair k v) = Lacks b'=' k
HasPlainKey (key_only k) = Lacks b'=' k
HasPlainKey (tag_part t) = Unit

abbrev pub sentence_words : Bytes → List Part → List Bytes
sentence_words word ps = word ∷ map part_word ps

-- The pairs put into a map in turn.
abbrev pub parts_map : List Part → Dict Bytes → Dict Bytes
parts_map [] m = m
parts_map (pair k v ∷ ps) m = parts_map ps (insert k v m)
parts_map (key_only k ∷ ps) m = parts_map ps (insert k [] m)
parts_map (tag_part t ∷ ps) m = parts_map ps m

-- The last tag, if there is any.
abbrev pub parts_tag : List Part → Bytes → Bytes
parts_tag [] tag = tag
parts_tag (pair k v ∷ ps) tag = parts_tag ps tag
parts_tag (key_only k ∷ ps) tag = parts_tag ps tag
parts_tag (tag_part t ∷ ps) tag = parts_tag ps t

-- The sentence that a first word and the words behind it stand for.
abbrev pub sentence_from : Bytes → List Part → Sentence
sentence_from word ps = record { map = parts_map ps []; word = word; tag = parts_tag ps [] }

add_word-pair :
    (sen : Sentence) (k v : Bytes)
    → is_empty sen.word ≡ false
    → Lacks b'=' k
    → add_word sen (part_word (pair k v)) ≡ ok (record sen { map = insert k v sen.map })
unfolding add_word add_attribute add_pair strip_prefix
add_word-pair sen k v h l = ground (arith, cut-append b'=' k v l)

add_word-key_only :
    (sen : Sentence) (k : Bytes)
    → is_empty sen.word ≡ false
    → Lacks b'=' k
    → add_word sen (part_word (key_only k)) ≡ ok (record sen { map = insert k [] sen.map })
unfolding add_word add_attribute add_pair strip_prefix
add_word-key_only sen k h l = ground (arith, cut-none b'=' k l)

add_word-tag :
    (sen : Sentence) (tag : Bytes)
    → is_empty sen.word ≡ false
    → add_word sen (tag_prefix ++ tag) ≡ ok (record sen { tag = tag })
unfolding add_word
add_word-tag sen tag h = rw (h, add_word) (rw (strip_prefix-append tag_prefix tag, add_word))

add_words-parts :
    (ps : List Part) (sen : Sentence)
    → is_empty sen.word ≡ false
    → All HasPlainKey ps
    → add_words sen (map part_word ps)
      ≡ ok (record sen { map = parts_map ps sen.map; tag = parts_tag ps sen.tag })
unfolding add_words
add_words-parts [] sen h l = refl
add_words-parts (pair k v ∷ ps) sen h l =
    rw (add_word-pair sen k v h l.0, add_words)
      (add_words-parts ps (record sen { map = insert k v sen.map }) h l.1)
add_words-parts (key_only k ∷ ps) sen h l =
    rw (add_word-key_only sen k h l.0, add_words)
      (add_words-parts ps (record sen { map = insert k [] sen.map }) h l.1)
add_words-parts (tag_part t ∷ ps) sen h l =
    rw (add_word-tag sen t h, add_words) (add_words-parts ps (record sen { tag = t }) h l.1)

add_words-sentence_words :
    (word : Bytes) (ps : List Part)
    → is_empty word ≡ false
    → All HasPlainKey ps
    → add_words new_sentence (sentence_words word ps) ≡ ok (sentence_from word ps)
unfolding add_words add_word
add_words-sentence_words word ps h l = add_words-parts ps (record new_sentence { word = word }) h l

length-word_frames : (ws : List Bytes) → length ws ≤ length (word_frames ws)
length-word_frames [] = omega arith
length-word_frames (w ∷ ws) = omega (
  arith,
  length-word_frames ws,
  length-append (word_frame w) (word_frames ws),
  length-append (encode_length (length w)) w,
  length-encode_length_pos (length w),
)
  where
    length-encode_length_pos : (l : ℕ) → 1 ≤ length (encode_length l)
    length-encode_length_pos l = unfold encode_length in ground arith

module _ (decode : Bytes → Option Bytes)
    (ascii_kept : (b : Bytes) → IsAscii b → decode b ≡ some b) where
  -- `ReadSentence` gives back a sentence that the writer framed, whatever follows it: the first
  -- word, the map of the words `=key=value` and `=key` behind it, of which a later one with the same
  -- key wins, and the last tag, which is empty where there is no `.tag=` word. This holds where each
  -- word is ASCII, not empty and shorter than 2 ^ 32, and no key has a `=`.
  pub read_sentence-frame :
      (word : Bytes) (ps : List Part) (rest : Bytes)
      → All IsWireWord (sentence_words word ps)
      → All HasPlainKey ps
      → read_sentence decode (frame (sentence_words word ps) ++ rest)
        ≡ (ok (sentence_from word ps), rest)
  unfolding read_sentence
  read_sentence-frame word ps rest h l =
      let ws = sentence_words word ps in
      rw (add_words-sentence_words word ps h.0.0 l) at (
        read_words-Outcome decode ascii_kept (length (frame ws ++ rest) + 1) new_sentence ws rest h
          (omega (
            arith,
            length-word_frames ws,
            length-append (word_frames ws) (word_frame []),
            length-append (frame ws) rest,
          )))

pub length-frame_pos : (ws : List Bytes) → 1 ≤ length (frame ws)
unfolding encode_length
length-frame_pos ws = omega (arith, length-append (word_frames ws) (word_frame []))
