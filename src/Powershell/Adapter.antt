-- ===== src/Powershell/Adapter.antt =====
-- powershell/adapter.go: the adapter of one command, and powershell/pipeline.go, which makes it.
-- Its Read polls once, and returns no bytes when the server has none yet.
use go_psrp.Common.{
  ℕ, ◌≡◌, ◌∙◌, ap, Bool, true, false, Option, none, some, List, [], ◌++◌, arith, if◌then◌else◌,
  take, drop, length, take-append-drop, sym,
}
use mathlib.Core.List.{append_assoc, append-nil}
use go_psrp.Common.Text.{Text, codes}
use go_psrp.Common.State.{Result, ok, err}
use go_psrp.Powershell.Remote.{Remote, EndpointReference, ReceiveResult}
use go_psrp.Powershell.Transport.{is_nil}
use go_psrp.Powershell.Transport.Stream.{Logs, handed, held}

module _ (remote : Remote) where
  open remote use {World, Context, Error, background, context_error, send, receive, signal}

  pub record Adapter : Type 0 where
    pub epr : Option EndpointReference
    pub command_id : Text
    pub read_buf : List ℕ
    pub done : Bool
    pub ctx : Context

  pub data AdapterError : Type 0 where
    eof : AdapterError
    failed : Error → AdapterError

  abbrev pub Outcome : Type 0 → Type 0
  Outcome A = Adapter × World × Result AdapterError A

  unfoldable pub new_adapter : Option EndpointReference → Text → Adapter
  new_adapter epr command_id = record {
    epr = epr;
    command_id = command_id;
    read_buf = [];
    done = false;
    ctx = background;
  }

  sent : Adapter → List ℕ → World × Result Error (Unit {0}) → Outcome ℕ
  sent a p (w, ok _) = (a, w, ok (length p))
  sent a p (w, err e) = (a, w, err (failed e))

  unfoldable pub write : Adapter → List ℕ → World → Outcome ℕ
  unfolding sent
  write a p w = sent a p (send a.ctx a.epr a.command_id (codes "stdin") p w)

  read_buffered : Adapter → ℕ → World → Outcome (List ℕ)
  read_buffered a n w = (record a { read_buf = drop n a.read_buf }, w, ok (take n a.read_buf))

  settle : Adapter → ℕ → World → Outcome (List ℕ)
  unfolding read_buffered
  settle a n w =
      if is_nil a.read_buf
      then if a.done then (a, w, err eof) else (a, w, ok [])
      else read_buffered a n w

  answered : Adapter → ℕ → World × Result Error ReceiveResult → Outcome (List ℕ)
  unfolding settle
  answered a n (w, ok r) =
      settle
        (record a { read_buf = a.read_buf ++ r.stdout; done = if r.done then true else a.done }) n w
  answered a n (w, err e) = (a, w, err (failed e))

  unfoldable pub read : Adapter → ℕ → World → Outcome (List ℕ)
  unfolding answered read_buffered
  read a n w = elim (context_error w a.ctx) [
    | some e ↦ (a, w, err (failed e))
    | none ↦
        if is_nil a.read_buf
        then if a.done then (a, w, err eof) else answered a n (receive a.ctx a.epr a.command_id w)
        else read_buffered a n w
  ]

  buffered_split :
      (a : Adapter) (n : ℕ) (given : List ℕ)
      → (given ++ take n a.read_buf) ++ drop n a.read_buf ≡ given ++ a.read_buf
  buffered_split a n given =
      append_assoc given _ _ ∙ ap (λ xs. given ++ xs) (take-append-drop n a.read_buf)

  answered_split :
      (log : World → List ℕ) (given : List ℕ) (a : Adapter) (n : ℕ)
      (r : World × Result Error ReceiveResult)
      → log r.0 ≡ (given ++ a.read_buf) ++ held r.1
      → let (a', w', out) = answered a n r in log w' ≡ (given ++ handed out) ++ a'.read_buf
  unfolding answered
  answered_split log given a n (w, err e) h =
      h ∙ append-nil _ ∙ ap (λ xs. xs ++ a.read_buf) (sym (append-nil given))
  answered_split log given a n (w, ok r) h =
      let now = record a {
        read_buf = a.read_buf ++ r.stdout;
        done = if r.done then true else a.done;
      } in
      ground (
        arith,
        append_assoc given a.read_buf r.stdout,
        append-nil given,
        buffered_split now n given,
      )

  -- Read of the adapter keeps the order and loses nothing: if what Receive answered with so far is
  -- what was handed out and then the buffer, that still holds after a call of Read, whatever it
  -- returns.
  pub read_split :
      (log : World → List ℕ)
      → Logs remote log
      → (given : List ℕ) (a : Adapter) (n : ℕ) (w : World) → log w ≡ given ++ a.read_buf
      → let (a', w', out) = read a n w in log w' ≡ (given ++ handed out) ++ a'.read_buf
  unfolding read
  read_split log logs given a n w h = ground (
    arith,
    append-nil given,
    buffered_split a n given,
    answered_split log given a n (receive a.ctx a.epr a.command_id w) (
        logs a.ctx a.epr a.command_id w
        ∙ ap (λ xs. xs ++ held (receive a.ctx a.epr a.command_id w).1) h),
  )
