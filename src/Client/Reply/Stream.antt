-- ===== src/Client/Reply/Stream.antt =====
-- `readReply` on the sentences of a device, framed as the writer of routeros/proto frames them.
use mikrotik_exporter.Prelude.{
  ℕ, zero, suc, ◌+◌, ◌≤◌, ◌<◌, true, false, Option, none, some, List, [], ◌∷◌, ◌++◌, append_assoc,
  append-nil, ◌≡◌, ap, ◌∙◌, arith, length, length-append, All, Bytes, codes, equal, equal_iff,
  if◌then◌else◌, inl, inr, ◌⊎◌,
}
use mikrotik_exporter.Proto.Length.{Result, ok, err}
use mikrotik_exporter.Proto.Sentence.{Sentence}
use mikrotik_exporter.Proto.Reader.{read_sentence}
use mikrotik_exporter.Proto.Writer.Laws.{frame}
use mikrotik_exporter.Proto.RoundTrip.{
  IsAscii, IsWireWord, Part, HasPlainKey, sentence_words, sentence_from, read_sentence-frame,
  length-frame_pos,
}
use mikrotik_exporter.Client.Reply.{
  Reply, ReplyError, device_error, read_error, process_sentence, reply_step, read_sentences,
  read_reply, empty_reply, Answer,
}

-- A sentence as a device sends it: its first word and the words behind it, pairs and tags.
pub record Wire : Type 0 where
  pub word : Bytes
  pub parts : List Part

abbrev pub wire_words : Wire → List Bytes
wire_words w = sentence_words w.word w.parts

abbrev pub sentence_of : Wire → Sentence
sentence_of w = sentence_from w.word w.parts

abbrev pub wire_frames : List Wire → Bytes
wire_frames [] = []
wire_frames (w ∷ ws) = frame (wire_words w) ++ wire_frames ws

-- Words that the wire carries unchanged, and keys without the sign that ends them.
abbrev pub IsSendable : Wire → Type 0
IsSendable w = All IsWireWord (wire_words w) × All HasPlainKey w.parts

-- A sentence that does not end a reply.
abbrev pub IsBody : Wire → Type 0
IsBody w = (w.word ≡ codes "!re") ⊎ (w.word ≡ codes "!trap") ⊎ (w.word ≡ codes "!empty")

-- The data sentences, in order, and the last complaint of the device.
abbrev pub re_sentences : List Wire → List Sentence
re_sentences [] = []
re_sentences (w ∷ ws) =
    if equal w.word (codes "!re") then sentence_of w ∷ re_sentences ws else re_sentences ws

abbrev pub last_trap : Option ReplyError → List Wire → Option ReplyError
last_trap last [] = last
last_trap last (w ∷ ws) =
    last_trap (if equal w.word (codes "!trap") then some (device_error (sentence_of w)) else last)
      ws

re_sentences-cons :
    (w : Wire) (ws : List Wire) → re_sentences (w ∷ []) ++ re_sentences ws ≡ re_sentences (w ∷ ws)
re_sentences-cons w ws = ground arith

process_re :
    (r : Reply) (sen : Sentence)
    → sen.word ≡ codes "!re"
    → process_sentence r sen ≡ (record r { re = r.re ++ sen ∷ [] }, false, none)
unfolding process_sentence
process_re r sen e = rw ((equal_iff sen.word (codes "!re")).1 e)

process_trap :
    (r : Reply) (sen : Sentence)
    → sen.word ≡ codes "!trap"
    → process_sentence r sen ≡ (r, false, some (device_error sen))
unfolding process_sentence equal
process_trap r sen e = rw (e, process_sentence)

process_empty :
    (r : Reply) (sen : Sentence)
    → sen.word ≡ codes "!empty"
    → process_sentence r sen ≡ (r, false, none)
unfolding process_sentence equal
process_empty r sen e = rw (e, process_sentence)

process_done :
    (r : Reply) (sen : Sentence)
    → sen.word ≡ codes "!done"
    → process_sentence r sen ≡ (record r { done = some sen }, true, none)
unfolding process_sentence equal
process_done r sen e = rw (e, process_sentence)

module _ (decode : Bytes → Option Bytes)
    (ascii_kept : (b : Bytes) → IsAscii b → decode b ≡ some b) where
  read_sentence-wire :
      (w : Wire) (rest : Bytes)
      → IsSendable w
      → read_sentence decode (frame (wire_words w) ++ rest) ≡ (ok (sentence_of w), rest)
  read_sentence-wire w rest h = read_sentence-frame decode ascii_kept w.word w.parts rest h.0 h.1

  -- One turn of the loop.
  read_sentences-step :
      (n : ℕ) (r : Reply) (last : Option ReplyError) (s rest : Bytes) (sen : Sentence)
      → read_sentence decode s ≡ (ok sen, rest)
      → read_sentences decode (suc n) r last s
        ≡ reply_step decode
            (λ r' l' t. read_sentences decode n r' l' t)
            last
            rest
            (process_sentence r sen)
  unfolding read_sentences
  read_sentences-step n r last s rest sen h =
      let turn : Result Sentence × Bytes → Answer = λ x. elim x.0 [
        | err e ↦ (none, some (read_error e), x.1)
        | ok sen' ↦
            reply_step decode (λ r' l' t. read_sentences decode n r' l' t) last x.1
              (process_sentence r sen')
      ] in
      ap turn h

  read_sentences-body :
      (n : ℕ) (r : Reply) (last : Option ReplyError) (w : Wire) (rest : Bytes)
      → IsSendable w
      → IsBody w
      → read_sentences decode (suc n) r last (frame (wire_words w) ++ rest)
        ≡ read_sentences decode n
            (record r { re = r.re ++ re_sentences (w ∷ []) })
            (last_trap last (w ∷ []))
            rest
  unfolding reply_step equal
  read_sentences-body n r last w rest h (inl e) =
      let re : equal w.word (codes "!re") ≡ true = rw e in
      let trap : equal w.word (codes "!trap") ≡ false = rw e in
      read_sentences-step n r last _ rest (sentence_of w) (read_sentence-wire w rest h)
      ∙ rw (process_re r (sentence_of w) e, re, trap)
  read_sentences-body n r last w rest h (inr (inl e)) =
      let re : equal w.word (codes "!re") ≡ false = rw e in
      let trap : equal w.word (codes "!trap") ≡ true = rw e in
      read_sentences-step n r last _ rest (sentence_of w) (read_sentence-wire w rest h)
      ∙ rw (process_trap r (sentence_of w) e, re, trap, append-nil)
  read_sentences-body n r last w rest h (inr (inr e)) =
      let re : equal w.word (codes "!re") ≡ false = rw e in
      let trap : equal w.word (codes "!trap") ≡ false = rw e in
      read_sentences-step n r last _ rest (sentence_of w) (read_sentence-wire w rest h)
      ∙ rw (process_empty r (sentence_of w) e, re, trap, append-nil)

  read_sentences-stream :
      (n : ℕ) (r : Reply) (last : Option ReplyError) (ws : List Wire) (d : Wire) (rest : Bytes)
      → length ws < n
      → All (λ w. IsSendable w × IsBody w) ws
      → IsSendable d
      → d.word ≡ codes "!done"
      → read_sentences decode n r last (wire_frames ws ++ (frame (wire_words d) ++ rest)) ≡ (
        some (record { done = some (sentence_of d); re = r.re ++ re_sentences ws }),
        last_trap last ws,
        rest,
      )
  unfolding reply_step
  read_sentences-stream zero r last ws d rest k h hd e = absurd (omega arith)
  read_sentences-stream (suc n) r last [] d rest k h hd e =
      read_sentences-step n r last _ rest (sentence_of d) (read_sentence-wire d rest hd)
      ∙ rw (process_done r (sentence_of d) e, append-nil)
  read_sentences-stream (suc n) r last (w ∷ ws) d rest k h hd e =
      rw (append_assoc (frame (wire_words w)) (wire_frames ws) (frame (wire_words d) ++ rest)) (
        read_sentences-body n r last w _ h.0.0 h.0.1
        ∙ read_sentences-stream n _ _ ws d rest (omega arith) h.1 hd e
        ∙ rw (append_assoc r.re (re_sentences (w ∷ [])) (re_sentences ws), re_sentences-cons w ws))

  length-wire_frames : (ws : List Wire) → length ws ≤ length (wire_frames ws)
  length-wire_frames [] = omega arith
  length-wire_frames (w ∷ ws) = omega (
    arith,
    length-wire_frames ws,
    length-frame_pos (wire_words w),
    length-append (frame (wire_words w)) (wire_frames ws),
  )

  -- Of a stream of `!re`, `!trap` and `!empty` sentences and a `!done`, `readReply` returns the data
  -- sentences in order with the final one, the last `!trap` as the error, if there was any, and it
  -- leaves what follows unread. The sentences hold pairs, keys without a value and tags, or none of
  -- these. This holds for words that are ASCII, not empty and shorter than 2 ^ 32, and keys without
  -- a `=`.
  pub read_reply-wire_frames :
      (ws : List Wire) (d : Wire) (rest : Bytes)
      → All (λ w. IsSendable w × IsBody w) ws
      → IsSendable d
      → d.word ≡ codes "!done"
      → read_reply decode (wire_frames ws ++ (frame (wire_words d) ++ rest)) ≡ (
        some (record { done = some (sentence_of d); re = re_sentences ws }),
        last_trap none ws,
        rest,
      )
  unfolding read_reply
  read_reply-wire_frames ws d rest h hd e =
      read_sentences-stream (length (wire_frames ws ++ (frame (wire_words d) ++ rest)) + 1)
        empty_reply none ws d rest
        (omega (
          arith,
          length-wire_frames ws,
          length-append (wire_frames ws) (frame (wire_words d) ++ rest),
        ))
        h hd e
