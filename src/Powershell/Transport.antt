-- ===== src/Powershell/Transport.antt =====
-- powershell/transport.go: io.ReadWriter over Send and Receive. Its polling loop takes fuel: `none`
-- means that the server kept answering with nothing.
pub mod Stream
pub mod Polling
use go_psrp.Common.{
  ℕ, zero, suc, Bool, true, false, Option, none, some, List, [], ◌∷◌, ◌++◌, if◌then◌else◌, take,
  drop, length,
}
use go_psrp.Common.Text.{Text, codes}
use go_psrp.Common.State.{Result, ok, err}
use go_psrp.Powershell.Remote.{Remote, EndpointReference, ReceiveResult}

abbrev pub is_nil : List ℕ → Bool
is_nil [] = true
is_nil (x ∷ xs) = false

abbrev pub signal_terminate : Text
signal_terminate = codes "http://schemas.microsoft.com/wbem/wsman/1/windows/shell/signal/terminate"

module _ (remote : Remote) where
  open remote use {World, Context, Error, background, context_error, send, receive, signal}

  -- `configured`: the client is not nil.
  pub record WsManTransport : Type 0 where
    pub configured : Bool
    pub epr : Option EndpointReference
    pub command_id : Text
    pub ctx : Context
    pub read_buf : List ℕ
    pub done : Bool

  pub data IoError : Type 0 where
    not_configured eof : IoError
    failed : Error → IoError

  abbrev pub Outcome : Type 0 → Type 0
  Outcome A = WsManTransport × World × Result IoError A

  unfoldable pub new_wsman_transport : Bool → Option EndpointReference → Text → WsManTransport
  new_wsman_transport client epr command_id = record {
    configured = client;
    epr = epr;
    command_id = command_id;
    ctx = background;
    read_buf = [];
    done = false;
  }

  unfoldable pub set_context : Context → WsManTransport → WsManTransport
  set_context c t = record t { ctx = c }

  unfoldable pub configure :
      Bool → Option EndpointReference → Text → WsManTransport → WsManTransport
  configure client epr command_id t = record t {
    configured = client;
    epr = epr;
    command_id = command_id;
  }

  sent : WsManTransport → List ℕ → World × Result Error (Unit {0}) → Outcome ℕ
  sent t p (w, ok _) = (t, w, ok (length p))
  sent t p (w, err e) = (t, w, err (failed e))

  unfoldable pub write : WsManTransport → List ℕ → World → Outcome ℕ
  unfolding sent
  write t p w =
      if t.configured
      then sent t p (send t.ctx t.epr t.command_id (codes "stdin") p w)
      else (t, w, err not_configured)

  -- `t.readBuf.Read(p)` with a slice of `n` bytes, on a buffer that is not empty.
  read_buffered : WsManTransport → ℕ → World → Outcome (List ℕ)
  read_buffered t n w = (record t { read_buf = drop n t.read_buf }, w, ok (take n t.read_buf))

  -- The buffer and the flag after an answer of Receive.
  absorb : WsManTransport → ReceiveResult → WsManTransport
  absorb t r = record t {
    read_buf = t.read_buf ++ r.stdout;
    done = if r.done then true else t.done;
  }

  -- After an answer: data, the end, or another poll.
  settle :
      (WsManTransport → ℕ → World → Option (Outcome (List ℕ)))
      → WsManTransport
      → ℕ
      → World
      → Option (Outcome (List ℕ))
  unfolding read_buffered
  settle again t n w = elim (is_nil t.read_buf) [
    | false ↦ some (read_buffered t n w)
    | true ↦ elim t.done [ true ↦ some (t, w, err eof) | false ↦ again t n w ]
  ]

  answered :
      (WsManTransport → ℕ → World → Option (Outcome (List ℕ)))
      → WsManTransport
      → ℕ
      → World × Result Error ReceiveResult
      → Option (Outcome (List ℕ))
  unfolding absorb settle
  answered again t n (w, ok r) = settle again (absorb t r) n w
  answered again t n (w, err e) = some (t, w, err (failed e))

  pub poll : ℕ → WsManTransport → ℕ → World → Option (Outcome (List ℕ))
  unfolding answered
  poll zero t n w = none
  poll (suc fuel) t n w = elim (context_error w t.ctx) [
    | some e ↦ some (t, w, err (failed e))
    | none ↦ answered (poll fuel) t n (receive t.ctx t.epr t.command_id w)
  ]

  unfoldable pub read : ℕ → WsManTransport → ℕ → World → Option (Outcome (List ℕ))
  unfolding poll read_buffered
  read fuel t n w =
      if t.configured
      then elim (context_error w t.ctx) [
        | some e ↦ some (t, w, err (failed e))
        | none ↦
            if is_nil t.read_buf
            then if t.done then some (t, w, err eof) else poll fuel t n w
            else some (read_buffered t n w)
      ]
      else some (t, w, err not_configured)

  closed : WsManTransport → World × Result Error (Unit {0}) → Outcome (Unit {0})
  closed t (w, ok _) = (t, w, ok tt)
  closed t (w, err e) = (t, w, err (failed e))

  unfoldable pub close : WsManTransport → World → Outcome (Unit {0})
  unfolding closed
  close t w = closed t (signal t.ctx t.epr t.command_id signal_terminate w)
