-- ===== src/Eventing/Steps.antt =====
-- client/eventing.go: the steps of a subscription keep what the consumer receives.
use go_psrp.Common.{
  ◌≡◌, refl, ap, subst, Bool, true, false, not, ◌&&◌, Option, none, some, List, [], ◌∷◌,
  if◌then◌else◌, length, Bool-cases, arith, inl, inr,
}
use go_psrp.Common.Text.{Text}
use go_psrp.Common.State.{Result, ok, err}
use go_psrp.Common.Errors.{GoError, Sentinel}
use go_psrp.Eventing.{
  Polling, PullResponse, Services, Step, tick, done, receive_event, receive_error, close,
  Subscribed, SubscribeOptions, chosen, validated, subscribed, accepted, subscribe, tick_with,
  pulled_by, take_event, take_error, close_subscription, step, run,
}
use go_psrp.Eventing.Delivery.{
  nothing, add_answer, Delivers, keep-Delivers, polled-Delivers, receive-Delivers,
}

module _ (text : Sentinel → Text) (services : Services) where
  open services use {World}

  abbrev pub Faithful : List Text → Subscribed World → Type 0
  Faithful before s = Delivers s.received before s.poll_loop

  -- What was pulled before a step, and by it.
  abbrev pub pulled_after : Step → Subscribed World → List Text → List Text
  pulled_after tick s before =
      if s.poll_loop.returned then before else add_answer (pulled_by services s).1 before
  pulled_after _ s before = before

  -- What is pulled in a run, after `before`.
  abbrev pub pulled_in : List Step → Subscribed World → List Text → List Text
  pulled_in [] s before = before
  pulled_in (x ∷ xs) s before = pulled_in xs (step text services x s) (pulled_after x s before)

  tick_with-Faithful :
      (before : List Text) (r : World × Result GoError PullResponse) (s : Subscribed World)
      → Faithful before s
      → Faithful (add_answer r.1 before) (tick_with text services r s)
  unfolding tick_with
  tick_with-Faithful before (w, r) s d = polled-Delivers text s.received before r s.poll_loop d

  take_event-Faithful :
      (before es : List Text) (s : Subscribed World)
      → s.poll_loop.events ≡ es
      → Faithful before s
      → Faithful before (take_event services es s)
  unfolding take_event
  take_event-Faithful before [] s e d = d
  take_event-Faithful before (raw ∷ rest) s e d =
      receive-Delivers s.received before raw rest s.poll_loop e d

  take_error-Faithful :
      (before : List Text) (es : List GoError) (s : Subscribed World)
      → s.poll_loop.errors ≡ es
      → Faithful before s
      → Faithful before (take_error services es s)
  unfolding take_error
  take_error-Faithful before [] s e d = d
  take_error-Faithful before (x ∷ rest) s e d = record {
    missing = d.missing;
    split = d.split;
    bounded = d.bounded;
    few_errors = omega (arith, d.few_errors, ap (λ (es : List GoError). length es) e);
    shorter = d.shorter;
    nothing_missed = d.nothing_missed;
  }

  choose-Faithful :
      (b : Bool) (before after : List Text) (s t : Subscribed World)
      → Faithful before s
      → Faithful after t
      → Faithful (if b then before else after) (if b then s else t)
  choose-Faithful true before after s t d e = d
  choose-Faithful false before after s t d e = e

  step-Faithful :
      (before : List Text) (x : Step) (s : Subscribed World)
      → Faithful before s
      → Faithful (pulled_after x s before) (step text services x s)
  unfolding step close_subscription
  step-Faithful before tick s d =
      choose-Faithful s.poll_loop.returned before (add_answer (pulled_by services s).1 before) s
        (tick_with text services (pulled_by services s) s) d
        (tick_with-Faithful before (pulled_by services s) s d)
  step-Faithful before done s d =
      let ended : Polling = record s.poll_loop { returned = true } in
      elim (Bool-cases (s.poll_loop.cancelled && not s.poll_loop.returned))
        as (λ c. Faithful before (step text services done s)) [
          | inl over ↦ rw over (keep-Delivers s.received before s.poll_loop ended refl refl d)
          | inr on ↦ rw on d
        ]
  step-Faithful before receive_event s d = take_event-Faithful before s.poll_loop.events s refl d
  step-Faithful before receive_error s d = take_error-Faithful before s.poll_loop.errors s refl d
  step-Faithful before close s d =
      keep-Delivers s.received before s.poll_loop (record s.poll_loop { cancelled = true }) refl
        refl d

  pub run-Faithful :
      (steps : List Step) (before : List Text) (s : Subscribed World)
      → Faithful before s
      → Faithful (pulled_in steps s before) (run text services steps s)
  unfolding run
  run-Faithful [] before s d = d
  run-Faithful (x ∷ xs) before s d =
      run-Faithful xs (pulled_after x s before) (step text services x s)
        (step-Faithful before x s d)

  subscribed-Faithful :
      (o : SubscribeOptions) (r : World × Result GoError Text) (s : Subscribed World)
      → (subscribed text services o r).1 ≡ ok s
      → Faithful [] s
  unfolding subscribed
  subscribed-Faithful o (w, err x) s e = cc
  subscribed-Faithful o (w, ok context) s e =
      let p : Polling = record {
        resource_uri = o.resource_uri;
        poll_interval = o.poll_interval;
        enum_context = context;
        cancelled = false;
        returned = false;
        events = [];
        errors = [];
      } in
      let start : Subscribed World = record {
        world = w;
        poll_loop = p;
        received = [];
        received_errors = [];
      } in
      let same : start ≡ s = cc in
      subst (λ t. Faithful [] t) same
        (record {
          missing = [];
          split = nothing;
          bounded = omega arith;
          few_errors = omega arith;
          shorter = omega arith;
          nothing_missed = inl refl;
        })

  accepted-Faithful :
      (refusal : Option GoError) (o : SubscribeOptions) (f : World → World × Result GoError Text)
      (w : World) (s : Subscribed World)
      → (accepted text services refusal o f w).1 ≡ ok s
      → Faithful [] s
  unfolding accepted
  accepted-Faithful (some x) o f w s e = cc
  accepted-Faithful none o f w s e = subscribed-Faithful o (f w) s e

  -- After a Subscribe that succeeds, whatever the loop, the consumer and Close do and in whatever
  -- order: what the consumer received of the events, followed by what their channel holds, is what
  -- Pull returned, in its order and without repetition, with nothing missing unless more than 100
  -- blobs of events came. The channels hold no more than 100 events and 10 errors.
  pub subscribe-Faithful :
      (f : Text → Text → World → World × Result GoError Text) (initialized : Bool) (query : Text)
      (opts : List SubscribeOptions) (w : World) (s : Subscribed World) (steps : List Step)
      → (subscribe text services f initialized query opts w).1 ≡ ok s
      → Faithful (pulled_in steps s []) (run text services steps s)
  unfolding subscribe
  subscribe-Faithful f initialized query opts w s steps e =
      let o = chosen opts in
      run-Faithful steps [] s
        (accepted-Faithful (validated query o initialized) o (f o.resource_uri query) w s e)
