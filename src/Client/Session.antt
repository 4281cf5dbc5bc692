-- ===== src/Client/Session.antt =====
-- The session with a device: `Run` and `RunArgs` of routeros/run.go, `Login`, `Close` and
-- `newClientAndLogin` of routeros/client.go.
-- What the device does between a flushed request and the reply is the parameter `respond`: it takes
-- the request from the sink and gives the bytes that arrive. MD5 is the parameter `md5`.
pub mod Hex
pub mod Laws
use mikrotik_exporter.Prelude.{
  ℕ, ◌+◌, Bool, true, false, Option, none, some, List, [], ◌∷◌, ◌++◌, if◌then◌else◌, Bytes, codes,
  Dict, lookup,
}
use mikrotik_exporter.Proto.Sentence.{Sentence}
use mikrotik_exporter.Proto.Writer.{Sink, Writer, write_sentence}
use mikrotik_exporter.Client.Reply.{Reply, ReplyError, read_reply}
use mikrotik_exporter.Client.Session.Hex.{hex_encode, hex_decode}

-- `inbox` is what has arrived and is not read; `closed` counts the calls of `rwc.Close`.
pub record Client (W E : Type 0) : Type 0 where
  pub inbox : Bytes
  pub writer : Writer W E
  pub closing : Bool
  pub closed : ℕ

pub data ClientError (E : Type 0) : Type 0 where
  write_failed : E → ClientError E
  reply_failed : ReplyError → ClientError E
  invalid_challenge : Bytes → ClientError E

-- What the code does on a path where it would read through a nil pointer is a panic.
pub data LoginResult (E : Type 0) : Type 0 where
  logged_in : LoginResult E
  login_failed : ClientError E → LoginResult E
  login_panic : LoginResult E

abbrev pub login_words : Bytes → Bytes → List Bytes
login_words username password =
    codes "/login" ∷ (codes "=name=" ++ username) ∷ (codes "=password=" ++ password) ∷ []

module _ {W E : Type 0} where
  -- The connection is closed at the first call only.
  unfoldable pub close : Client W E → Client W E
  close c = if c.closing then c else record c { closing = true; closed = c.closed + 1 }

  abbrev pub new_client : W → Client W E
  new_client s = record {
    inbox = [];
    writer = record { sink = s; error = none; locked = false };
    closing = false;
    closed = 0;
  }

module _ {W E : Type 0} (ops : Sink W E) (respond : W → W × Bytes) (decode : Bytes → Option Bytes)
    (md5 : Bytes → Bytes) where
  -- The client after a call, and a reply and an error, either of which may be nil.
  abbrev pub RunResult : Type 0
  RunResult = Client W E × Option Reply × Option (ClientError E)

  unfoldable pub receive : Client W E → Writer W E → RunResult
  receive c w =
      let (s, bytes) = respond w.sink in
      let (reply, e, rest) = read_reply decode (c.inbox ++ bytes) in
      (
        record c { inbox = rest; writer = record w { sink = s } },
        reply,
        elim e [ none ↦ none | some x ↦ some (reply_failed x) ],
      )

  -- `endCommandSync`, given what the writer returned.
  unfoldable pub end_command : Client W E → Writer W E × Option E → RunResult
  end_command c (w, some x) = (record c { writer = w }, none, some (write_failed x))
  end_command c (w, none) = receive c w

  -- `RunArgs`.
  unfoldable pub run : Client W E → List Bytes → RunResult
  run c words = end_command c (write_sentence ops c.writer words)

  unfoldable pub challenge_response : Bytes → Bytes → Bytes
  challenge_response cha password = codes "00" ++ hex_encode (md5 (0 ∷ password ++ cha))

  abbrev pub challenge_words : Bytes → Bytes → Bytes → List Bytes
  challenge_words username password cha =
      codes "/login"
      ∷ (codes "=name=" ++ username)
      ∷ (codes "=response=" ++ challenge_response cha password)
      ∷ []

  -- The second stage of a login: the error of the second request is its result.
  unfoldable pub answer_challenge : Client W E → Bytes → Bytes → Bytes → Client W E × LoginResult E
  answer_challenge c username password ret = elim (hex_decode ret) [
    | none ↦ (c, login_failed (invalid_challenge ret))
    | some cha ↦
        let (c', r, e) = run c (challenge_words username password cha) in
        (c', elim e [ some x ↦ login_failed x | none ↦ logged_in ])
  ]

  -- `Login` behind its first request. The code reads `r.Done.Map["ret"]` before it tests `r.Done`,
  -- so that a nil `r.Done` would be a panic, and its `ErrLoginNoRet` is never reached.
  unfoldable pub login_reply : Bytes → Bytes → RunResult → Client W E × LoginResult E
  login_reply username password (c, r, some x) = (c, login_failed x)
  login_reply username password (c, none, none) = (c, login_panic)
  login_reply username password (c, some r, none) = elim r.done [
    | none ↦ (c, login_panic)
    | some d ↦ elim (lookup (codes "ret") d.map) [
      | none ↦ (c, logged_in)
      | some ret ↦ answer_challenge c username password ret
    ]
  ]

  unfoldable pub login : Client W E → Bytes → Bytes → Client W E × LoginResult E
  login c username password = login_reply username password (run c (login_words username password))

  -- The client is returned only if the login went through.
  unfoldable pub new_client_and_login : W → Bytes → Bytes → Client W E × LoginResult E
  new_client_and_login s username password =
      let (c, result) = login (new_client s) username password in
      elim result [
        | logged_in ↦ (c, logged_in)
        | login_failed x ↦ (close c, login_failed x)
        | login_panic ↦ (c, login_panic)
      ]
