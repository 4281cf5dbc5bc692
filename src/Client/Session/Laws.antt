-- ===== src/Client/Session/Laws.antt =====
-- `Run`, `Login` and `Close` on every path.
use mikrotik_exporter.Prelude.{
  ◌+◌, true, false, ◌≢◌, Option, none, some, List, ◌++◌, ◌≡◌, refl, arith, if◌then◌else◌, Bytes,
  codes, lookup,
}
use mikrotik_exporter.Proto.Sentence.{Sentence}
use mikrotik_exporter.Proto.Writer.{Sink, Writer, write_sentence}
use mikrotik_exporter.Client.Reply.{Reply, ReplyError}
use mikrotik_exporter.Client.Reply.Total.{IsDone, HasDone, read_reply_total}
use mikrotik_exporter.Client.Session.Hex.{hex_decode}
use mikrotik_exporter.Client.Session.{
  Client, ClientError, reply_failed, invalid_challenge, LoginResult, logged_in, login_failed,
  login_panic, receive, end_command, run, login_words, challenge_words, answer_challenge,
  login_reply, login, close, new_client, new_client_and_login,
}

-- A call of `Close` behind another does nothing, and an open client's connection is closed once.
pub close_once :
    {W E : Type 0} (c : Client W E)
    → (close (close c) ≡ close c)
      × ((close c).closing ≡ true)
      × ((close c).closed ≡ (if c.closing then c.closed else c.closed + 1))
unfolding close
close_once c = ground arith

module _ {W E : Type 0} (ops : Sink W E) (respond : W → W × Bytes) (decode : Bytes → Option Bytes)
    (md5 : Bytes → Bytes) where
  receive-IsDone :
      (c : Client W E) (w : Writer W E)
      → let (c', r, e) = receive ops respond decode md5 c w in IsDone r e
  unfolding receive
  receive-IsDone c w = go _ _ (read_reply_total decode (c.inbox ++ (respond w.sink).1)).0
    where
      go :
          (r : Option Reply) (e : Option ReplyError)
          → IsDone r e
          → IsDone {E = ClientError E} r (elim e [ none ↦ none | some x ↦ some (reply_failed x) ])
      go (some r) e h = h
      go none none h = absurd (h refl)
      go none (some x) h = cc

  -- A request ends with a finished reply or with an error.
  pub run-IsDone :
      (c : Client W E) (words : List Bytes)
      → let (c', r, e) = run ops respond decode md5 c words in IsDone r e
  unfolding run
  run-IsDone c words = go (write_sentence ops c.writer words)
    where
      go :
          (x : Writer W E × Option E)
          → let (c', r, e) = end_command ops respond decode md5 c x in IsDone r e
      go (w, none) = unfold end_command in receive-IsDone c w
      go (w, some x) = unfold end_command in cc

  -- What a login that got this answer to its first request returns.
  abbrev pub LoginCase :
      Bytes
      → Bytes
      → Client W E × Option Reply × Option (ClientError E)
      → Client W E × LoginResult E
      → Type 0
  LoginCase u p (c', r, some x) out = out ≡ (c', login_failed x)
  LoginCase u p (c', none, none) out = ⊥
  LoginCase u p (c', some r, none) out =
      (d : Sentence) × (r.done ≡ some d)
      × (out ≡ elim (lookup (codes "ret") d.map) [
        | none ↦ (c', logged_in)
        | some ret ↦ answer_challenge ops respond decode md5 c' u p ret
      ])

  -- `Login` sends the name and the password first and never reads through a nil pointer: it fails
  -- with the error of that request; or the reply has a final sentence, and the login is done if this
  -- holds no `ret`, and goes on with the challenge in `ret` otherwise.
  pub login-LoginCase :
      (c : Client W E) (u p : Bytes)
      → LoginCase u p
          (run ops respond decode md5 c (login_words u p))
          (login ops respond decode md5 c u p)
  unfolding login
  login-LoginCase c u p =
      go (run ops respond decode md5 c (login_words u p)) (run-IsDone c (login_words u p))
    where
      with_done :
          (c' : Client W E) (r : Reply) (done : Option Sentence)
          → r.done ≡ done
          → HasDone done
          → LoginCase u p
              (c', some r, none)
              (login_reply ops respond decode md5 u p (c', some r, none))
      with_done c' r none e h = absurd h
      with_done c' r (some d) e h = (d, e, unfold login_reply in rw e)

      go :
          (x : Client W E × Option Reply × Option (ClientError E))
          → IsDone x.1 x.2
          → LoginCase u p x (login_reply ops respond decode md5 u p x)
      go (c', r, some x) h = unfold login_reply in refl
      go (c', none, none) h = absurd (h refl)
      go (c', some r, none) h = with_done c' r r.done refl h

  -- A connection that was never closed.
  abbrev IsOpen : Client W E → Type 0
  IsOpen c = (c.closing ≡ false) × (c.closed ≡ 0)

  run-IsOpen :
      (c : Client W E) (words : List Bytes)
      → IsOpen c
      → IsOpen (run ops respond decode md5 c words).0
  unfolding run
  run-IsOpen c words h = go (write_sentence ops c.writer words)
    where
      go : (x : Writer W E × Option E) → IsOpen (end_command ops respond decode md5 c x).0
      go (w, none) = unfold end_command receive in h
      go (w, some x) = unfold end_command in h

  answer_challenge-IsOpen :
      (c : Client W E) (u p ret : Bytes)
      → IsOpen c
      → let (c', result) = answer_challenge ops respond decode md5 c u p ret in
        IsOpen c' × (result ≢ login_panic)
  unfolding answer_challenge
  answer_challenge-IsOpen c u p ret h = go (hex_decode ret)
    where
      second :
          (e : Option (ClientError E))
          → let out : LoginResult E = elim e [ some x ↦ login_failed x | none ↦ logged_in ] in
            out ≢ login_panic
      second none = cc
      second (some x) = cc

      go :
          (cha : Option Bytes)
          → let out : Client W E × LoginResult E = elim cha [
            | none ↦ (c, login_failed (invalid_challenge ret))
            | some cha' ↦
                let words = challenge_words ops respond decode md5 u p cha' in
                let (c', r, e) = run ops respond decode md5 c words in
                (c', elim e [ some x ↦ login_failed x | none ↦ logged_in ])
          ] in
            IsOpen out.0 × (out.1 ≢ login_panic)
      go none = (h, cc)
      go (some cha) = (run-IsOpen c _ h, second _)

  login-IsOpen :
      (c : Client W E) (u p : Bytes)
      → IsOpen c
      → let (c', result) = login ops respond decode md5 c u p in IsOpen c' × (result ≢ login_panic)
  login-IsOpen c u p h =
      go (run ops respond decode md5 c (login_words u p)) (login ops respond decode md5 c u p)
        (run-IsOpen c (login_words u p) h) (login-LoginCase c u p)
    where
      answered :
          (c' : Client W E) (ret : Option Bytes) (out : Client W E × LoginResult E)
          → IsOpen c'
          → out ≡ elim ret [
            | none ↦ (c', logged_in)
            | some x ↦ answer_challenge ops respond decode md5 c' u p x
          ]
          → IsOpen out.0 × (out.1 ≢ login_panic)
      answered c' none out h e = rw e (h, cc)
      answered c' (some ret) out h e = rw e (answer_challenge-IsOpen c' u p ret h)

      go :
          (x : Client W E × Option Reply × Option (ClientError E))
          (out : Client W E × LoginResult E)
          → IsOpen x.0
          → LoginCase u p x out
          → IsOpen out.0 × (out.1 ≢ login_panic)
      go (c', r, some e) out h l = rw l (h, cc)
      go (c', none, none) out h l = absurd l
      go (c', some r, none) out h (d, there, l) = answered c' (lookup (codes "ret") d.map) out h l

  -- What comes of a new connection, by what its login made of it.
  abbrev pub NewClientCase : Client W E × LoginResult E → Client W E × LoginResult E → Type 0
  NewClientCase (c, logged_in) out = (out ≡ (c, logged_in)) × (c.closing ≡ false) × (c.closed ≡ 0)
  NewClientCase (c, login_failed x) out =
      (out.1 ≡ login_failed x) × (out.0.closing ≡ true) × (out.0.closed ≡ 1)
  NewClientCase (c, login_panic) out = ⊥

  -- The login of a new connection does not panic. If it fails, its error is the result and the
  -- connection has been closed, once; if it goes through, the client is returned as the login left
  -- it, with a connection that has not been closed.
  pub new_client_and_login_closes :
      (s : W) (u p : Bytes)
      → NewClientCase
          (login ops respond decode md5 (new_client s) u p)
          (new_client_and_login ops respond decode md5 s u p)
  unfolding new_client_and_login
  new_client_and_login_closes s u p =
      go (login ops respond decode md5 (new_client s) u p)
        (login-IsOpen (new_client s) u p (refl, refl))
    where
      go :
          (y : Client W E × LoginResult E)
          → IsOpen y.0 × (y.1 ≢ login_panic)
          → NewClientCase y (elim y.1 [
            | logged_in ↦ (y.0, logged_in)
            | login_failed x ↦ (close y.0, login_failed x)
            | login_panic ↦ (y.0, login_panic)
          ])
      go (c, logged_in) h = (refl, h.0.0, h.0.1)
      go (c, login_failed x) h = unfold close in rw (h.0.0, h.0.1) (refl, refl, refl)
      go (c, login_panic) h = absurd (h.1 refl)
