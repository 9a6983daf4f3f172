-- ===== src/Hvsock.antt =====
-- hvsock/auth.go: the two stages of a PowerShell Direct connection, with their text protocol. The
-- sockets and the waits are parameters; texts are ASCII, and the texts of errors leave out what was
-- received. The debugging output is left out.
pub mod Keeping
pub mod Balance
mod Examples
use go_psrp.Common.{
  ℕ, zero, suc, ◌+◌, ◌*◌, ◌/◌, ◌^◌, Bool, true, false, ◌&&◌, ◌||◌, not, Option, none, some, List,
  [], ◌∷◌, ◌++◌, if◌then◌else◌, ltb, ◌==◌, drop, length,
}
use go_psrp.Common.State.{Result, ok, err, M, ◌>>=◌, ◌>>◌, pure, throw}
use go_psrp.Common.Text.{Text, codes, text_eq, is_empty, has_prefix}
use go_psrp.Common.Errors.{GoError, message, wrap, sentinel, eof}
use go_psrp.Transfer.Output.{trim_space}

-- PsrpBrokerServiceID and PsrpServerServiceID.
pub data Service : Type 0 where
  broker server : Service

-- What is called: DialService with a timeout; the connection's SetReadDeadline (with no time: none),
-- Read, Write and Close; net.Error's Timeout; time.Sleep; and the wait for a time or for the end of
-- the context, with its error.
pub record Sockets : Type 1 where
  pub World : Type 0
  pub Conn : Type 0
  pub dial : Service → ℕ → World → World × Result GoError Conn
  pub set_read_deadline : Option ℕ → Conn → World → World × Option GoError
  pub read : ℕ → Conn → World → World × Result GoError Text
  pub write : Text → Conn → World → World × Option GoError
  pub close : Conn → World → World
  pub is_timeout : GoError → Bool
  pub sleep : ℕ → World → World
  pub wait : ℕ → World → World × Option GoError

abbrev pub millisecond : ℕ
millisecond = 10 ^ 6

abbrev pub default_auth_timeout : ℕ
default_auth_timeout = 10 * 1000 * millisecond

abbrev pub max_token_response_len : ℕ
max_token_response_len = 16 * 1024

-- strings.TrimRight of NUL bytes.
abbrev pub trim_nul : Text → Text
trim_nul [] = []
trim_nul (c ∷ s) = let rest = trim_nul s in if is_empty rest && c == 0 then [] else c ∷ rest

-- On ASCII.
unfoldable pub encode_utf16_le : Text → Text
encode_utf16_le [] = []
encode_utf16_le (c ∷ s) = c ∷ 0 ∷ encode_utf16_le s

abbrev pub next_delay : ℕ → ℕ
next_delay d = if ltb (3000 * millisecond) (d * 3 / 2) then 3000 * millisecond else d * 3 / 2

module _ (sockets : Sockets) where
  open sockets use {
    World, Conn, dial, set_read_deadline, read, write, close, is_timeout, sleep, wait,
  }

  abbrev pub Step : Type 0 → Type 0
  Step A = M World GoError A

  -- A call that may fail, with the prefix of its error.
  unfoldable pub calls : Text → (World → World × Option GoError) → Step (Unit {0})
  calls prefix f w =
      let (w', e) = f w in (w', elim e [ none ↦ ok tt | some x ↦ err (wrap prefix x) ])

  -- The bytes of a read.
  received : Result GoError Text → Step Text
  received (err e) w =
      if is_timeout e
      then (w, err (message (codes "read timeout: server did not respond")))
      else (w, err e)
  received (ok bytes) w =
      if is_empty bytes then (w, err (sentinel eof)) else (w, ok (trim_nul bytes))

  -- The read, and the deferred reset of the deadline.
  read_reset : ℕ → Conn → Step Text
  unfolding received
  read_reset max conn w =
      let (w', r) = read max conn w in
      let (w'', result) = received r w' in ((set_read_deadline none conn w'').0, result)

  unfoldable pub receive_ascii_with_timeout : ℕ → ℕ → Conn → Step Text
  unfolding read_reset calls
  receive_ascii_with_timeout max timeout conn =
      calls (codes "set read deadline: ") (set_read_deadline (some timeout) conn)
      >> read_reset max conn

  unfoldable pub receive_ascii : ℕ → Conn → Step Text
  unfolding receive_ascii_with_timeout
  receive_ascii max = receive_ascii_with_timeout max default_auth_timeout

  -- A prefix for an error.
  unfoldable pub tagged : {A : Type 0} → Text → Step A → Step A
  tagged prefix m w =
      let (w', r) = m w in (w', elim r [ ok a ↦ ok a | err e ↦ err (wrap prefix e) ])

  receive_ack : Text → Conn → Step (Unit {0})
  unfolding tagged receive_ascii
  receive_ack prefix conn = tagged prefix (receive_ascii 4 conn) >>= λ ack. pure tt

  send : Text → Text → Conn → Step (Unit {0})
  unfolding calls
  send prefix bytes conn = calls prefix (write bytes conn)

  -- A write whose error is not looked at.
  send_anyway : Text → Conn → Step (Unit {0})
  send_anyway bytes conn w = ((write bytes conn w).0, ok tt)

  require : Bool → GoError → Step (Unit {0})
  require true e = pure tt
  require false e = throw e

  -- The first steps of both stages; `legacy` is the error of a server that is too old.
  unfoldable pub version_exchange : Text → Conn → Step (Unit {0})
  unfolding send tagged receive_ascii require
  version_exchange legacy conn =
      send (codes "send version request: ") (codes "VERSION") conn
      >> (tagged (codes "read version response: ") (receive_ascii 16 conn) >>= λ response.
          require (has_prefix response (codes "VERSION_")) (message legacy)
          >> send (codes "send client version: ") (codes "VERSION_2") conn
          >> (tagged (codes "read version ack: ") (receive_ascii 4 conn) >>= λ ack.
              require (text_eq ack (codes "PASS"))
                (message (codes "version negotiation failed: " ++ ack))))

  send_password : Text → Conn → Step (Unit {0})
  unfolding send receive_ack encode_utf16_le
  send_password pass conn =
      if is_empty pass
      then send (codes "send emptypw: ") (codes "EMPTYPW") conn
      else send (codes "send nonemptypw: ") (codes "NONEMPTYPW") conn
        >> receive_ack (codes "read password prompt ack: ") conn
        >> send (codes "send password: ") (encode_utf16_le pass) conn

  send_configuration : Text → Conn → Step (Unit {0})
  unfolding send receive_ack encode_utf16_le
  send_configuration name conn =
      if is_empty name
      then send (codes "send emptycf: ") (codes "EMPTYCF") conn
      else send (codes "send nonemptycf: ") (codes "NONEMPTYCF") conn
        >> receive_ack (codes "read config prompt ack: ") conn
        >> send (codes "send config name: ") (encode_utf16_le name) conn

  receive_token : Conn → Step Text
  unfolding tagged receive_ascii_with_timeout require send
  receive_token conn =
      tagged (codes "read token: ")
        (receive_ascii_with_timeout max_token_response_len default_auth_timeout conn)
      >>= λ response.
          require (has_prefix response (codes "TOKEN ")) (message (codes "expected token"))
          >> send (codes "send token ack: ") (codes "PASS") conn
          >> pure (trim_space (drop 6 response))

  -- The answer to the credentials.
  credentials_answered : Text → Text → Conn → Step Text
  unfolding send_anyway send_configuration receive_token
  credentials_answered name answer conn =
      if text_eq answer (codes "FAIL")
      then send_anyway (codes "FAIL") conn
        >> throw (message (codes "authentication failed: invalid credentials"))
      else if text_eq answer (codes "PASS")
      then send_anyway (codes "PASS") conn >> pure []
      else if text_eq answer (codes "CONF")
      then send_configuration name conn >> receive_token conn
      else throw (message (codes "unexpected credential response"))

  unfoldable pub authenticate_with_broker : Text → Text → Text → Text → Conn → Step Text
  unfolding version_exchange send receive_ack send_password tagged receive_ascii
      credentials_answered
  authenticate_with_broker domain user pass name conn =
      let domain' =
        if is_empty domain || text_eq domain (codes ".") then codes "localhost" else domain in
      version_exchange (codes "server uses legacy protocol, VERSION_2+ required") conn
      >> send (codes "send domain: ") (encode_utf16_le domain') conn
      >> receive_ack (codes "read domain ack: ") conn
      >> send (codes "send user: ") (encode_utf16_le user) conn
      >> receive_ack (codes "read user ack: ") conn
      >> send_password pass conn
      >> (tagged (codes "read credential response: ") (receive_ascii 4 conn) >>= λ answer.
          credentials_answered name answer conn)

  unfoldable pub authenticate_with_token : Text → Conn → Step (Unit {0})
  unfolding version_exchange send tagged receive_ascii require
  authenticate_with_token token conn =
      version_exchange (codes "server uses legacy protocol") conn
      >> send (codes "send token: ") (codes "TOKEN " ++ token) conn
      >> (tagged (codes "read token response: ") (receive_ascii 256 conn) >>= λ response.
          require (text_eq response (codes "PASS"))
            (message (codes "token authentication failed: " ++ response)))

  unfoldable pub authenticate : Text → Text → Text → Text → Conn → Step (Unit {0})
  unfolding authenticate_with_broker
  authenticate domain user pass name conn =
      authenticate_with_broker domain user pass name conn >>= λ token. pure tt

  -- After the last attempt.
  last_dialed : World × Result GoError Conn → World × Result GoError Conn
  last_dialed (w, ok conn) = (w, ok conn)
  last_dialed (w, err e) = (w, err (wrap (codes "stage 2 failed after 10 attempts: ") e))

  waited : Step Conn → World × Option GoError → World × Result GoError Conn
  waited again (w, none) = again w
  waited again (w, some e) = (w, err (wrap (codes "context cancelled during connection retry: ") e))

  -- After an attempt with others to come.
  dialed : Step Conn → ℕ → World × Result GoError Conn → World × Result GoError Conn
  unfolding waited
  dialed again delay (w, ok conn) = (w, ok conn)
  dialed again delay (w, err e) = waited again (wait delay w)

  -- The attempts to reach the PowerShell process, so many after this one, with the delay before the
  -- next.
  unfoldable pub dial_attempts : ℕ → ℕ → Step Conn
  unfolding last_dialed dialed
  dial_attempts zero delay w = last_dialed (dial server (5000 * millisecond) w)
  dial_attempts (suc more) delay w =
      dialed (dial_attempts more (next_delay delay)) delay (dial server (5000 * millisecond) w)

  -- The broker's connection is closed whatever comes out.
  broker_closed : Conn → World × Result GoError Text → World × Result GoError Text
  broker_closed conn (w, ok token) =
      if is_empty token
      then (
        close conn w,
        err (message (codes "no token received from broker (legacy mode not supported)")),
      )
      else (close conn w, ok token)
  broker_closed conn (w, err e) = (close conn w, err (wrap (codes "broker auth: ") e))

  -- The connection to the process is closed if the token is refused.
  server_answered : Conn → World × Result GoError (Unit {0}) → World × Result GoError Conn
  server_answered conn (w, ok done) = (w, ok conn)
  server_answered conn (w, err e) = (close conn w, err (wrap (codes "ps auth: ") e))

  stage_one : Text → Text → Text → Text → Conn → Step Text
  unfolding authenticate_with_broker broker_closed
  stage_one domain user pass name conn w =
      broker_closed conn (authenticate_with_broker domain user pass name conn w)

  stage_two : Text → Conn → Step Conn
  unfolding authenticate_with_token server_answered
  stage_two token conn w = server_answered conn (authenticate_with_token token conn w)

  started : Step (Unit {0})
  started w = (sleep (500 * millisecond) w, ok tt)

  unfoldable pub connect_and_authenticate : Text → Text → Text → Text → Step Conn
  unfolding stage_one started dial_attempts stage_two
  connect_and_authenticate domain user pass name =
      tagged (codes "dial broker: ") (dial broker default_auth_timeout) >>= λ conn.
      stage_one domain user pass name conn >>= λ token.
      started >> (dial_attempts 9 (250 * millisecond) >>= λ conn'. stage_two token conn')
