-- ===== src/Proto/Writer/Laws.antt =====
-- What a sentence leaves in the sink, and what an error of the sink does to the rest of it.
use mikrotik_exporter.Prelude.{
  true, false, none, some, List, [], ◌∷◌, ◌++◌, ◌≡◌, refl, arith, ◌∙◌, append_assoc, append-nil, ap,
  sym, Bytes, length,
}
use mikrotik_exporter.Proto.Length.{encode_length}
use mikrotik_exporter.Proto.Writer.{
  Sink, Writer, write, flush, write_word, write_words, begin_sentence, end_sentence, write_sentence,
}

-- The bytes of one word, of several, and of a sentence with the empty word behind it.
abbrev pub word_frame : Bytes → Bytes
word_frame w = encode_length (length w) ++ w

abbrev pub word_frames : List Bytes → Bytes
word_frames [] = []
word_frames (w ∷ ws) = word_frame w ++ word_frames ws

abbrev pub frame : List Bytes → Bytes
frame ws = word_frames ws ++ word_frame []

module _ {W E : Type 0} (ops : Sink W E) where
  write-error : (w : Writer W E) (b : Bytes) (e : E) → w.error ≡ some e → write ops w b ≡ w
  unfolding write
  write-error w b e h = rw h

  write_words-error :
      (w : Writer W E) (ws : List Bytes) (e : E) → w.error ≡ some e → write_words ops w ws ≡ w
  unfolding write_words write_word
  write_words-error w [] e h = refl
  write_words-error w (word ∷ ws) e h =
      rw (write-error w (encode_length (length word)) e h)
        (rw (write-error w word e h) (write_words-error w ws e h))

  -- Once a write has failed, no later sentence reaches the sink: it is left as it was, the sentence
  -- returns that first error, and the lock is free again.
  pub write_sentence-error :
      (w : Writer W E) (ws : List Bytes) (e : E)
      → w.error ≡ some e
      → write_sentence ops w ws ≡ (record w { locked = false }, some e)
  unfolding write_sentence begin_sentence end_sentence write_word write flush
  write_sentence-error w ws e h =
      ground (arith, write_words-error (record w { locked = true }) ws e h)

  -- What the sink holds, seen as bytes, where it takes all that it is given.
  pub record Keeps (content : W → Bytes) : Type 0 where
    pub put_none : (s : W) (b : Bytes) → (ops.put s b).1 ≡ none
    pub put_content : (s : W) (b : Bytes) → content (ops.put s b).0 ≡ content s ++ b
    pub push_none : (s : W) → (ops.push s).1 ≡ none
    pub push_content : (s : W) → content (ops.push s).0 ≡ content s

  module _ (content : W → Bytes) (k : Keeps content) where
    open k use {put_none, put_content, push_none, push_content}

    -- One word is appended, and there is still no error.
    abbrev Appended : Writer W E → Bytes → Writer W E → Type 0
    Appended w b w' =
        (content w'.sink ≡ content w.sink ++ b) × (w'.error ≡ none) × (w'.locked ≡ w.locked)

    write-Appended : (w : Writer W E) (b : Bytes) → w.error ≡ none → Appended w b (write ops w b)
    unfolding write
    write-Appended w b h = ground (arith, put_none w.sink b, put_content w.sink b)

    write_word-Appended :
        (w : Writer W E) (word : Bytes)
        → w.error ≡ none
        → Appended w (word_frame word) (write_word ops w word)
    unfolding write_word
    write_word-Appended w word h =
        let head = encode_length (length word) in
        let first = write-Appended w head h in
        let second = write-Appended (write ops w head) word first.1 in
        (
          second.0 ∙ ap (λ x. x ++ word) first.0 ∙ append_assoc (content w.sink) head word,
          second.1,
          second.2 ∙ first.2,
        )

    write_words-Appended :
        (w : Writer W E) (ws : List Bytes)
        → w.error ≡ none
        → Appended w (word_frames ws) (write_words ops w ws)
    unfolding write_words
    write_words-Appended w [] h = (sym (append-nil (content w.sink)), h, refl)
    write_words-Appended w (word ∷ ws) h =
        let first = write_word-Appended w word h in
        let second = write_words-Appended (write_word ops w word) ws first.1 in
        (
          second.0
              ∙ ap (λ x. x ++ word_frames ws) first.0
              ∙ append_assoc (content w.sink) (word_frame word) (word_frames ws),
          second.1,
          second.2 ∙ first.2,
        )

    end_sentence-Appended :
        (w : Writer W E)
        → w.error ≡ none
        → (content (end_sentence ops w).0.sink ≡ content w.sink ++ word_frame [])
          × ((end_sentence ops w).0.error ≡ none)
          × ((end_sentence ops w).0.locked ≡ false)
          × ((end_sentence ops w).1 ≡ none)
    unfolding end_sentence flush
    end_sentence-Appended w h =
        let last = write_word-Appended w [] h in
        let s = (write_word ops w []).sink in
        ground (arith, last.0, last.1, push_none s, push_content s)

    -- Where the sink takes all that it is given and no write has failed before, a sentence leaves
    -- in it just the frames of its words and the empty word, without error, and frees the lock.
    pub write_sentence-frame :
        (w : Writer W E) (ws : List Bytes)
        → w.error ≡ none
        → let (w', e) = write_sentence ops w ws in
          (content w'.sink ≡ content w.sink ++ frame ws)
          × (w'.error ≡ none)
          × (w'.locked ≡ false)
          × (e ≡ none)
    unfolding write_sentence begin_sentence
    write_sentence-frame w ws h =
        let first = write_words-Appended (record w { locked = true }) ws h in
        let last =
          end_sentence-Appended (write_words ops (record w { locked = true }) ws) first.1 in
        (
          last.0
              ∙ ap (λ x. x ++ word_frame []) first.0
              ∙ append_assoc (content w.sink) (word_frames ws) (word_frame []),
          last.1,
          last.2,
          last.3,
        )
