-- ===== src/Proto/Reader/Total.antt =====
-- The reader takes bytes from the front of the stream, and its loop ends.
use mikrotik_exporter.Prelude.{
  ℕ, zero, suc, ◌+◌, ◌≤◌, ◌<◌, Option, [], ◌∷◌, ◌≡◌, ◌≢◌, arith, length, length-drop, Bytes,
  Bool-cases, inl, inr, is_empty,
}
use mikrotik_exporter.Proto.Length.{
  ok, err, out_of_fuel, bind_cases, ◌>>=◌, read_exact, fill_buffer, read_length,
}
use mikrotik_exporter.Proto.Sentence.{Sentence, new_sentence, add_word, add_attribute}
use mikrotik_exporter.Proto.Reader.{lift, word_step, decoded, read_word, read_words, read_sentence}

read_exact-le : (n : ℕ) (s : Bytes) → length (read_exact n s).1 ≤ length s
unfolding read_exact
read_exact-le n s = ground (arith, length-drop n s)

fill_buffer-le : (b : ℕ) (s : Bytes) → length (fill_buffer b s).1 ≤ length s
unfolding fill_buffer
fill_buffer-le b s =
    ground (arith, length-drop 1 s, length-drop 2 s, length-drop 3 s, length-drop 4 s)

read_length-lt : (b : ℕ) (s : Bytes) → length (read_length (b ∷ s)).1 ≤ length s
unfolding read_length
read_length-lt b s = ground (arith, fill_buffer-le b s)

module _ (decode : Bytes → Option Bytes) where
  -- A word that is read takes a byte at least.
  pub read_word-lt : (b : ℕ) (s : Bytes) → length (read_word decode (b ∷ s)).1 ≤ length s
  unfolding read_word
  read_word-lt b s =
      bind_cases (λ x. length x.1 ≤ length s) read_length
        (λ l. read_exact l >>= λ w. lift (decoded decode w)) (b ∷ s) (λ e h. read_length-lt b s)
        (λ l h. word (read_length (b ∷ s)).1 l (read_length-lt b s))
    where
      word :
          (t : Bytes) (l : ℕ)
          → length t ≤ length s
          → length ((read_exact l >>= λ w. lift (decoded decode w)) t).1 ≤ length s
      word t l h =
          bind_cases (λ x. length x.1 ≤ length s) (read_exact l) (λ w. lift (decoded decode w)) t
            (λ e k. omega (arith, read_exact-le l t)) (λ w k. omega (arith, read_exact-le l t))

  -- A word that is read fails for a reason of the stream, never for want of fuel.
  read_word-ne-out_of_fuel : (s : Bytes) → (read_word decode s).0 ≢ err out_of_fuel
  unfolding read_word read_length fill_buffer read_exact
  read_word-ne-out_of_fuel [] = ground arith
  read_word-ne-out_of_fuel (b ∷ s) = ground arith

  add_word-ne-out_of_fuel : (sen : Sentence) (buf : Bytes) → add_word sen buf ≢ err out_of_fuel
  unfolding add_word add_attribute
  add_word-ne-out_of_fuel sen [] = ground arith
  add_word-ne-out_of_fuel sen (c ∷ t) = ground arith

  read_word-nil : (buf : Bytes) → (read_word decode []).0 ≢ ok buf
  unfolding read_word read_length
  read_word-nil buf = ground arith

  read_word-shorter :
      (n : ℕ) (s buf : Bytes)
      → (read_word decode s).0 ≡ ok buf
      → length s < suc n
      → length (read_word decode s).1 < n
  read_word-shorter n [] buf k h = absurd (read_word-nil buf k)
  read_word-shorter n (b ∷ s) buf k h = omega (arith, read_word-lt b s)

  read_words_total :
      (n : ℕ) (sen : Sentence) (s : Bytes)
      → length s < n
      → (read_words decode n sen s).0 ≢ err out_of_fuel
  unfolding read_words
  read_words_total zero sen s h = absurd (omega arith)
  read_words_total (suc n) sen s h =
      bind_cases (λ x. x.0 ≢ err out_of_fuel) (read_word decode)
        (word_step decode (λ sen'. read_words decode n sen') sen) s
        (λ e k. ground (arith, k, read_word-ne-out_of_fuel s))
        (λ buf k. elim (Bool-cases (is_empty buf)) [
          | inl last ↦ rw last cc
          | inr more ↦ rw more (
              bind_cases (λ x. x.0 ≢ err out_of_fuel) (lift (add_word sen buf))
                (λ sen'. read_words decode n sen') (read_word decode s).1
                (λ e j. ground (arith, j, add_word-ne-out_of_fuel sen buf))
                (λ sen' j.
                  read_words_total n sen' (read_word decode s).1 (read_word-shorter n s buf k h)))
        ])

  -- `ReadSentence` ends on every stream: it returns a sentence or one of the errors of the code,
  -- and never for want of fuel.
  pub read_sentence_total : (s : Bytes) → (read_sentence decode s).0 ≢ err out_of_fuel
  unfolding read_sentence
  read_sentence_total s = read_words_total (length s + 1) new_sentence s (omega arith)

  read_words-lt :
      (n : ℕ) (sen : Sentence) (s : Bytes) (r : Sentence)
      → (read_words decode n sen s).0 ≡ ok r
      → length (read_words decode n sen s).1 < length s
  unfolding read_words
  read_words-lt zero sen s r = λ h. cc
  read_words-lt (suc n) sen s r =
      bind_cases (λ x. x.0 ≡ ok r → length x.1 < length s) (read_word decode)
        (word_step decode (λ sen'. read_words decode n sen') sen) s (λ e k j. cc)
        (λ buf k. elim (Bool-cases (is_empty buf)) [
          | inl last ↦ rw last (λ j. read_word-lt_ok s buf k)
          | inr more ↦ rw more (
              bind_cases (λ x. x.0 ≡ ok r → length x.1 < length s) (lift (add_word sen buf))
                (λ sen'. read_words decode n sen') (read_word decode s).1 (λ e j i. cc)
                (λ sen' j i. omega (
                  arith,
                  read_word-lt_ok s buf k,
                  read_words-lt n sen' (read_word decode s).1 r i,
                )))
        ])
    where
      read_word-lt_ok :
          (s buf : Bytes)
          → (read_word decode s).0 ≡ ok buf
          → length (read_word decode s).1 < length s
      read_word-lt_ok [] buf k = absurd (read_word-nil buf k)
      read_word-lt_ok (b ∷ s) buf k = omega (arith, read_word-lt b s)

  -- A sentence that is read takes a byte at least.
  pub read_sentence-lt :
      (s : Bytes) (r : Sentence)
      → (read_sentence decode s).0 ≡ ok r
      → length (read_sentence decode s).1 < length s
  unfolding read_sentence
  read_sentence-lt s r h = read_words-lt (length s + 1) new_sentence s r h
