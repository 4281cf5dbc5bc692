-- ===== src/Client/Reply/Total.antt =====
-- `readReply` ends, and a reply that it returns has its `Done` sentence.
use mikrotik_exporter.Prelude.{
  ℕ, zero, suc, ◌+◌, ◌<◌, Bool, true, false, Option, none, some, ◌≡◌, ◌≢◌, refl, arith, length,
  Bytes, codes, equal_iff,
}
use mikrotik_exporter.Proto.Length.{Result, ok, err, out_of_fuel}
use mikrotik_exporter.Proto.Sentence.{Sentence}
use mikrotik_exporter.Proto.Reader.{read_sentence}
use mikrotik_exporter.Proto.Reader.Total.{read_sentence_total, read_sentence-lt}
use mikrotik_exporter.Client.Reply.{
  Reply, ReplyError, read_error, process_sentence, reply_step, read_sentences, read_reply,
  empty_reply, Answer,
}

-- A reply with a final sentence.
abbrev pub HasDone : Option Sentence → Type 0
HasDone none = ⊥
HasDone (some d) = d.word ≡ codes "!done"

-- A reply has it, and where there is no reply there is an error.
abbrev pub IsDone : {E : Type 0} → Option Reply → Option E → Type 0
IsDone none e = e ≢ none
IsDone (some r) e = HasDone r.done

-- What an answer must be: a reply in it is done, and its error is never the lack of fuel.
abbrev IsFinal : Answer → Type 0
IsFinal a = IsDone a.0 a.1 × (a.1 ≢ some (read_error out_of_fuel))

abbrev FinalStep : Reply × Bool × Option ReplyError → Type 0
FinalStep (r, d, e) = (d ≡ true → e ≡ none → HasDone r.done) × (e ≢ some (read_error out_of_fuel))

process_sentence-FinalStep : (r : Reply) (sen : Sentence) → FinalStep (process_sentence r sen)
unfolding process_sentence
process_sentence-FinalStep r sen = ground (arith, equal_iff sen.word (codes "!done"))

module _ (decode : Bytes → Option Bytes) where
  reply_step-IsFinal :
      (again : Reply → Option ReplyError → Bytes → Answer) (last : Option ReplyError) (s : Bytes)
      (p : Reply × Bool × Option ReplyError)
      → FinalStep p
      → last ≢ some (read_error out_of_fuel)
      → ((r : Reply) (l : Option ReplyError)
          → l ≢ some (read_error out_of_fuel)
          → IsFinal (again r l s))
      → IsFinal (reply_step decode again last s p)
  unfolding reply_step
  reply_step-IsFinal again last s (r, true, none) f l k = (f.0 refl refl, l)
  reply_step-IsFinal again last s (r, true, some e) f l k = (cc, f.1)
  reply_step-IsFinal again last s (r, false, none) f l k = k r last l
  reply_step-IsFinal again last s (r, false, some e) f l k = k r (some e) f.1

  read_sentences-IsFinal :
      (n : ℕ) (r : Reply) (last : Option ReplyError) (s : Bytes)
      → length s < n
      → last ≢ some (read_error out_of_fuel)
      → IsFinal (read_sentences decode n r last s)
  unfolding read_sentences
  read_sentences-IsFinal zero r last s h l = absurd (omega arith)
  read_sentences-IsFinal (suc n) r last s h l =
      go (read_sentence decode s).0 refl (λ r' l' t j k. read_sentences-IsFinal n r' l' t j k)
    where
      go :
          (result : Result Sentence)
          → (read_sentence decode s).0 ≡ result
          → ((r' : Reply) (l' : Option ReplyError) (t : Bytes)
              → length t < n
              → l' ≢ some (read_error out_of_fuel)
              → IsFinal (read_sentences decode n r' l' t))
          → IsFinal (elim result [
            | err e ↦ (none, some (read_error e), (read_sentence decode s).1)
            | ok sen ↦
                reply_step decode
                  (λ r' l' t. read_sentences decode n r' l' t)
                  last
                  (read_sentence decode s).1
                  (process_sentence r sen)
          ])
      go (err e) k ih = (cc, ground (arith, k, read_sentence_total decode s))
      go (ok sen) k ih =
          reply_step-IsFinal (λ r' l' t. read_sentences decode n r' l' t) last
            (read_sentence decode s).1 (process_sentence r sen) (process_sentence-FinalStep r sen) l
            (λ r' l' j.
              ih r' l' (read_sentence decode s).1 (omega (arith, read_sentence-lt decode s sen k))
                j)

  -- `readReply` ends on every stream and returns a reply or an error; a reply, also one that comes
  -- with an error, holds the `!done` sentence that ended it.
  pub read_reply_total :
      (s : Bytes)
      → IsDone (read_reply decode s).0 (read_reply decode s).1
        × ((read_reply decode s).1 ≢ some (read_error out_of_fuel))
  unfolding read_reply
  read_reply_total s = read_sentences-IsFinal (length s + 1) empty_reply none s (omega arith) cc
