-- ===== src/Eventing.antt =====
-- client/eventing.go: a subscription to events, with its polling loop and its two bounded channels. A
-- tick of the loop is a step, and so is what the consumer of the channels does. The
-- logging is left out, and the Expires option is never read, as in the code.
pub mod Delivery
pub mod Steps
mod Examples
use go_psrp.Common.{
  ℕ, ◌+◌, ◌*◌, ◌^◌, Bool, true, false, ◌&&◌, ◌||◌, not, Option, none, some, is_some, List, [], ◌∷◌,
  ◌++◌, if◌then◌else◌, ltb, ◌==◌, length,
}
use go_psrp.Common.Int.{ℤ, pos, ltb_ℤ}
use go_psrp.Common.State.{Result, ok, err}
use go_psrp.Common.Text.{Text, codes, is_empty, contains}
use go_psrp.Common.Errors.{GoError, Sentinel, message, wrap, error_text}

pub record SubscribeOptions : Type 0 where
  pub resource_uri : Text
  pub expires : ℤ
  pub poll_interval : ℤ

abbrev pub default_options : SubscribeOptions
default_options = record {
  resource_uri = codes "http://schemas.microsoft.com/wbem/wsman/1/wmi/root/cimv2/*";
  expires = pos (10 * 60 * 10 ^ 9);
  poll_interval = pos (2 * 10 ^ 9);
}

abbrev pub positive_or : ℤ → ℤ → ℤ
positive_or default d = if ltb_ℤ (pos 0) d then d else default

-- The options given in the call: only the first counts.
unfoldable pub chosen : List SubscribeOptions → SubscribeOptions
chosen [] = default_options
chosen (o ∷ opts) = record {
  resource_uri = if is_empty o.resource_uri then default_options.resource_uri else o.resource_uri;
  expires = positive_or default_options.expires o.expires;
  poll_interval = positive_or default_options.poll_interval o.poll_interval;
}

-- With whether the WSMan client is there.
unfoldable pub validated : Text → SubscribeOptions → Bool → Option GoError
validated query o initialized =
    if ltb 16384 (length query)
    then some (message (codes "query too long (max 16KB)"))
    else (if ltb 2048 (length o.resource_uri)
        then some (message (codes "resource URI too long (max 2KB)"))
        else (if initialized then none else some (message (codes "wsman client not initialized"))))

-- The parts of wsman.PullResponse that are used: Items.Raw and whether EndOfSequence is there.
pub record PullResponse : Type 0 where
  pub enumeration_context : Text
  pub items : Text
  pub end_of_sequence : Bool

-- The polling loop: whether its context is cancelled, whether it has returned (which closes the
-- channels), and what the channels hold. The ticks come at the interval.
pub record Polling : Type 0 where
  pub resource_uri : Text
  pub poll_interval : ℤ
  pub enum_context : Text
  pub cancelled : Bool
  pub returned : Bool
  pub events : List Text
  pub errors : List GoError

abbrev pub events_capacity : ℕ
events_capacity = 100

abbrev pub errors_capacity : ℕ
errors_capacity = 10

-- A send that is dropped when the channel is full.
unfoldable pub report : GoError → Polling → Polling
report e p =
    if ltb (length p.errors) errors_capacity then record p { errors = p.errors ++ (e ∷ []) } else p

unfoldable pub emit : Text → Polling → Polling
unfolding report
emit raw p =
    if ltb (length p.events) events_capacity
    then record p { events = p.events ++ (raw ∷ []) }
    else report (message (codes "event buffer full, dropping events")) p

unfoldable pub emit_items : Text → Polling → Polling
unfolding emit
emit_items [] p = p
emit_items (b ∷ raw) p = emit (b ∷ raw) p

unfoldable pub continue_at : Text → Polling → Polling
continue_at c p = if is_empty c then p else record p { enum_context = c }

unfoldable pub end_at : Bool → Polling → Polling
end_at over p = if over then record p { returned = true } else p

module _ (text : Sentinel → Text) where
  -- After Pull.
  unfoldable pub polled : Result GoError PullResponse → Polling → Polling
  unfolding report continue_at emit_items end_at
  polled (err e) p =
      end_at (contains (error_text text e) (codes "InvalidEnumerationContext"))
        (report (wrap (codes "pull error: ") e) p)
  polled (ok r) p =
      end_at r.end_of_sequence (emit_items r.items (continue_at r.enumeration_context p))

-- What is called: Pull with the resource, the enumeration context and the most elements, Unsubscribe.
pub record Services : Type 1 where
  pub World : Type 0
  pub pull : Text → Text → ℕ → World → World × Result GoError PullResponse
  pub unsubscribe : World → World × Option GoError

-- A tick of the loop; its turn with the context done (the choice between the two is not its own);
-- the two receives of the consumer; and Close.
pub data Step : Type 0 where
  tick done receive_event receive_error close : Step

-- The subscription with the world, and what the consumer received.
pub record Subscribed (W : Type 0) : Type 0 where
  pub world : W
  pub poll_loop : Polling
  pub received : List Text
  pub received_errors : List GoError

module _ (services : Services) where
  open services use {World, pull, unsubscribe}

  unfoldable pub pulled_by : Subscribed World → World × Result GoError PullResponse
  pulled_by s = pull s.poll_loop.resource_uri s.poll_loop.enum_context 100 s.world

  take_event : List Text → Subscribed World → Subscribed World
  take_event [] s = s
  take_event (raw ∷ rest) s =
      let p : Polling = record s.poll_loop { events = rest } in
      record s { poll_loop = p; received = s.received ++ (raw ∷ []) }

  take_error : List GoError → Subscribed World → Subscribed World
  take_error [] s = s
  take_error (e ∷ rest) s =
      let p : Polling = record s.poll_loop { errors = rest } in
      record s { poll_loop = p; received_errors = s.received_errors ++ (e ∷ []) }

  -- Close, with its error.
  unfoldable pub close_subscription : Subscribed World → Subscribed World × Option GoError
  close_subscription s =
      let (w, e) = unsubscribe s.world in
      let p : Polling = record s.poll_loop { cancelled = true } in
      (record s { world = w; poll_loop = p }, e)

module _ (text : Sentinel → Text) (services : Services) where
  open services use {World}

  unfoldable pub tick_with :
      World × Result GoError PullResponse → Subscribed World → Subscribed World
  unfolding polled
  tick_with (w, r) s = record s { world = w; poll_loop = polled text r s.poll_loop }

  -- A receive finds what the channel holds, also when it is closed; on an empty one the consumer
  -- waits, or finds it closed.
  unfoldable pub step : Step → Subscribed World → Subscribed World
  unfolding tick_with pulled_by take_event take_error close_subscription
  step tick s = if s.poll_loop.returned then s else tick_with (pulled_by services s) s
  step done s =
      if s.poll_loop.cancelled && not s.poll_loop.returned
      then (let p : Polling = record s.poll_loop { returned = true } in record s { poll_loop = p })
      else s
  step receive_event s = take_event services s.poll_loop.events s
  step receive_error s = take_error services s.poll_loop.errors s
  step close s = (close_subscription services s).0

  unfoldable pub run : List Step → Subscribed World → Subscribed World
  unfolding step
  run [] s = s
  run (x ∷ xs) s = run xs (step x s)

  -- Subscribe, after the options: what wsman.Client.Subscribe answers is its enumeration context.
  subscribed :
      SubscribeOptions → World × Result GoError Text → World × Result GoError (Subscribed World)
  subscribed o (w, err e) = (w, err (wrap (codes "subscribe failed: ") e))
  subscribed o (w, ok context) =
      let p : Polling = record {
        resource_uri = o.resource_uri;
        poll_interval = o.poll_interval;
        enum_context = context;
        cancelled = false;
        returned = false;
        events = [];
        errors = [];
      } in
      (w, ok (record { world = w; poll_loop = p; received = []; received_errors = [] }))

  accepted :
      Option GoError
      → SubscribeOptions
      → (World → World × Result GoError Text)
      → World
      → World × Result GoError (Subscribed World)
  unfolding subscribed
  accepted (some e) o f w = (w, err e)
  accepted none o f w = subscribed o (f w)

  -- With wsman.Client.Subscribe of a resource and a query.
  unfoldable pub subscribe :
      (Text → Text → World → World × Result GoError Text)
      → Bool
      → Text
      → List SubscribeOptions
      → World
      → World × Result GoError (Subscribed World)
  unfolding accepted chosen validated
  subscribe f initialized query opts w =
      let o = chosen opts in accepted (validated query o initialized) o (f o.resource_uri query) w
