-- ===== src/Powershell/Remote.antt =====
-- What the package powershell calls: PoolClient of powershell/runspace.go, the runspace pool of the
-- PSRP core library (a dependency), contexts. All of it acts on a world. wsman/types.go and
-- ReceiveResult of wsman/client.go are the data that is passed.
use go_psrp.Common.{ℕ, Bool, Option, List}
use go_psrp.Common.Text.{Text}
use go_psrp.Common.State.{Result}

pub record EndpointReference : Type 0 where
  pub address : Text
  pub resource_uri : Text
  pub selectors : List (Text × Text)

pub record ReceiveResult : Type 0 where
  pub stdout : List ℕ
  pub stderr : List ℕ
  pub exit_code : ℕ
  pub done : Bool

-- An operation with a context `Context` and an error `Error` of the environment.
pub record Remote : Type 1 where
  pub World : Type 0
  pub Context : Type 0
  pub Error : Type 0
  pub background : Context
  -- context.WithTimeout, in nanoseconds.
  pub with_timeout : ℕ → Context → Context
  -- ctx.Err()
  pub context_error : World → Context → Option Error
  pub create : Context → List (Text × Text) → Text → World → World × Result Error EndpointReference
  pub delete : Context → Option EndpointReference → World → World × Result Error (Unit {0})
  pub command : Context → Option EndpointReference → Text → Text → World → World × Result Error Text
  pub send :
      Context
      → Option EndpointReference
      → Text
      → Text
      → List ℕ
      → World
      → World × Result Error (Unit {0})
  pub receive :
      Context → Option EndpointReference → Text → World → World × Result Error ReceiveResult
  pub signal :
      Context → Option EndpointReference → Text → Text → World → World × Result Error (Unit {0})
  pub disconnect : Context → Option EndpointReference → World → World × Result Error (Unit {0})
  pub reconnect : Context → Text → World → World × Result Error (Unit {0})
  pub connect : Context → Text → Text → World → World × Result Error (List ℕ)
  -- The runspace pool: its handshakes, Open (with or without sending the handshake), and the steps
  -- of a reconnection.
  pub get_handshake_fragments : World → World × Result Error (List ℕ)
  pub get_connect_handshake_fragments : World → World × Result Error (List ℕ)
  pub open_pool : Context → Bool → World → World × Result Error (Unit {0})
  pub process_connect_response : List ℕ → World → World × Result Error (Unit {0})
  pub resume_opened : World → World
  -- The pipeline's SkipInvokeSend, and its identifier in upper case.
  pub skip_invoke_send : World → World
  pub pipeline_id : World → Text
