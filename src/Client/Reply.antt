-- ===== src/Client/Reply.antt =====
-- A reply as a list of sentences: `processSentence` and `readReply` of routeros/reply.go.
pub mod Total
pub mod Stream
use mikrotik_exporter.Prelude.{
  ℕ, zero, suc, ◌+◌, Bool, true, false, Option, none, some, List, [], ◌∷◌, ◌++◌, if◌then◌else◌,
  ◌||◌, length, Bytes, codes, equal,
}
use mikrotik_exporter.Proto.Length.{ReadError, ok, err, out_of_fuel}
use mikrotik_exporter.Proto.Sentence.{Sentence}
use mikrotik_exporter.Proto.Reader.{read_sentence}

pub record Reply : Type 0 where
  pub done : Option Sentence
  pub re : List Sentence

-- `DeviceError` and `UnknownReplyError` (routeros/error.go), and the errors of the reader.
pub data ReplyError : Type 0 where
  device_error : Sentence → ReplyError
  unknown_reply : Sentence → ReplyError
  read_error : ReadError → ReplyError

-- The reply after a sentence, whether it ends the reply, and the error if there is one.
unfoldable pub process_sentence : Reply → Sentence → Reply × Bool × Option ReplyError
process_sentence r sen =
    if equal sen.word (codes "!re")
    then (record r { re = r.re ++ sen ∷ [] }, false, none)
    else if equal sen.word (codes "!done")
    then (record r { done = some sen }, true, none)
    else if equal sen.word (codes "!trap") || equal sen.word (codes "!fatal")
    then (r, equal sen.word (codes "!fatal"), some (device_error sen))
    else if equal sen.word [] || equal sen.word (codes "!empty")
    then (r, false, none)
    else (r, true, some (unknown_reply sen))

abbrev pub empty_reply : Reply
empty_reply = record { done = none; re = [] }

-- A reply and an error, either of which may be nil, and the stream behind.
abbrev pub Answer : Type 0
Answer = Option Reply × Option ReplyError × Bytes

module _ (decode : Bytes → Option Bytes) where
  -- What one turn of the loop does with its sentence; `again` is the rest of the loop.
  unfoldable pub reply_step :
      (Reply → Option ReplyError → Bytes → Answer)
      → Option ReplyError
      → Bytes
      → Reply × Bool × Option ReplyError
      → Answer
  reply_step again last s (r, true, none) = (some r, last, s)
  reply_step again last s (r, true, some e) = (none, some e, s)
  reply_step again last s (r, false, none) = again r last s
  reply_step again last s (r, false, some e) = again r (some e) s

  -- The loop of `readReply`, with fuel.
  unfoldable pub read_sentences : ℕ → Reply → Option ReplyError → Bytes → Answer
  read_sentences zero r last s = (none, some (read_error out_of_fuel), s)
  read_sentences (suc n) r last s =
      let (result, s') = read_sentence decode s in
      elim result [
        | err e ↦ (none, some (read_error e), s')
        | ok sen ↦
            reply_step (λ r' last' t. read_sentences n r' last' t) last s' (process_sentence r sen)
      ]

  -- Each sentence takes a byte at least, so the fuel is enough.
  unfoldable pub read_reply : Bytes → Answer
  read_reply s = read_sentences (length s + 1) empty_reply none s
