-- ===== src/Tests/Client.antt =====
-- Replies and sessions of a small device.
use mikrotik_exporter.Prelude.{
  ℕ, true, none, some, [], ◌∷◌, ◌++◌, ◌≡◌, ◌≢◌, refl, arith, ◌+◌, if◌then◌else◌, Bytes, codes, All,
  equal, strip_prefix, lookup, insert,
}
use mikrotik_exporter.Proto.RoundTrip.{pair, tag_part}
use mikrotik_exporter.Proto.Writer.Laws.{frame}
use mikrotik_exporter.Client.Reply.{
  read_reply, read_sentences, reply_step, process_sentence, read_error, device_error,
}
use mikrotik_exporter.Client.Reply.Total.{IsDone, read_reply_total}
use mikrotik_exporter.Client.Reply.Stream.{
  Wire, wire_words, wire_frames, sentence_of, re_sentences, last_trap, IsSendable, IsBody,
  read_reply-wire_frames,
}
use mikrotik_exporter.Proto.Length.{
  out_of_fuel, encode_length, read_exact, read_length, fill_buffer, combine,
}
use mikrotik_exporter.Proto.Writer.{
  write, flush, write_word, begin_sentence, end_sentence, write_words, write_sentence,
}
use mikrotik_exporter.Proto.Reader.{read_sentence, read_words, read_word}
use mikrotik_exporter.Proto.Sentence.{add_word, add_attribute, add_pair}
use mikrotik_exporter.Client.Session.{
  Client, reply_failed, login, login_reply, end_command, receive, run, login_failed, login_words,
  close, new_client, new_client_and_login,
}
use mikrotik_exporter.Client.Session.Laws.{
  close_once, LoginCase, NewClientCase, login-LoginCase, new_client_and_login_closes,
}
use mikrotik_exporter.Tests.Samples.{kept_bytes, plain, plain_kept}

abbrev row : Wire
row = record {
  word = codes "!re";
  parts = pair (codes "name") (codes "ether1") ∷ tag_part (codes "1") ∷ [];
}

abbrev complaint : Wire
complaint = record { word = codes "!trap"; parts = [] }

abbrev last : Wire
last = record { word = codes "!done"; parts = [] }

All-IsSendable : All (λ w. IsSendable w × IsBody w) (row ∷ complaint ∷ [])
All-IsSendable = ground arith

last-IsSendable : IsSendable last
last-IsSendable = ground arith

read_reply-wire_frames_example :
    read_reply plain (wire_frames (row ∷ complaint ∷ []) ++ (frame (wire_words last) ++ codes "q"))
    ≡ (
      some (record { done = some (sentence_of last); re = re_sentences (row ∷ complaint ∷ []) }),
      last_trap none (row ∷ complaint ∷ []),
      codes "q",
    )
read_reply-wire_frames_example =
    read_reply-wire_frames plain plain_kept (row ∷ complaint ∷ []) last (codes "q") All-IsSendable
      last-IsSendable refl

read_reply_total_example :
    IsDone (read_reply plain (codes "xyz")).0 (read_reply plain (codes "xyz")).1
    × ((read_reply plain (codes "xyz")).1 ≢ some (read_error out_of_fuel))
read_reply_total_example = read_reply_total plain (codes "xyz")

abbrev connection : Client Bytes ℕ
connection = new_client []

close_once_example :
    (close (close connection) ≡ close connection)
    × ((close connection).closing ≡ true)
    × ((close connection).closed
        ≡ (if connection.closing then connection.closed else connection.closed + 1))
close_once_example = close_once connection

-- The device answers every request with the final sentence.
abbrev answers : Bytes → Bytes × Bytes
answers s = (s, frame (wire_words last))

abbrev no_hash : Bytes → Bytes
no_hash s = s

login-LoginCase_example :
    LoginCase kept_bytes answers plain no_hash
      (codes "u")
      (codes "p")
      (run kept_bytes answers plain no_hash connection (login_words (codes "u") (codes "p")))
      (login kept_bytes answers plain no_hash connection (codes "u") (codes "p"))
login-LoginCase_example =
    login-LoginCase kept_bytes answers plain no_hash connection (codes "u") (codes "p")

-- The device refuses every request.
abbrev refuses : Bytes → Bytes × Bytes
refuses s = (s, frame (wire_words complaint) ++ frame (wire_words last))

new_client_and_login_closes_example :
    NewClientCase kept_bytes refuses plain no_hash
      (login kept_bytes refuses plain no_hash (new_client []) (codes "u") (codes "p"))
      (new_client_and_login kept_bytes refuses plain no_hash [] (codes "u") (codes "p"))
new_client_and_login_closes_example =
    new_client_and_login_closes kept_bytes refuses plain no_hash [] (codes "u") (codes "p")

-- Its complaint is the error of the login, and the connection is closed.
login_refused :
    let (c, result) =
      new_client_and_login kept_bytes refuses plain no_hash [] (codes "u") (codes "p") in
    (result ≡ login_failed (reply_failed (device_error (sentence_of complaint)))) × (c.closed ≡ 1)
unfolding new_client_and_login login login_reply run end_command receive close write_sentence
    write_words write_word begin_sentence end_sentence write flush encode_length read_reply
    read_sentences reply_step process_sentence equal read_sentence read_words read_word read_exact
    read_length add_word add_attribute add_pair strip_prefix lookup insert fill_buffer combine
login_refused = (refl, refl)
