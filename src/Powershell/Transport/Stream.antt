-- ===== src/Powershell/Transport/Stream.antt =====
-- powershell/transport.go: what the readers are handed is what the server sent, in its order.
use go_psrp.Common.{
  ℕ, zero, suc, ◌≡◌, refl, ◌∙◌, Bool, true, false, if◌then◌else◌, Option, none, some, List, [],
  ◌++◌, arith, ap, take-append-drop, subst,
}
use mathlib.Core.List.{append_assoc, append-nil}
use go_psrp.Common.State.{Result, ok, err}
use go_psrp.Powershell.Remote.{Remote, ReceiveResult, EndpointReference}
use go_psrp.Powershell.Transport.{
  WsManTransport, IoError, eof, Outcome, read, poll, settle, absorb, read_buffered, answered,
}
use go_psrp.Common.Text.{Text}

-- The bytes that an operation hands to its caller.
abbrev pub handed : {E : Type 0} → Result E (List ℕ) → List ℕ
handed (ok bytes) = bytes
handed (err e) = []

-- The bytes that an answer of Receive holds.
abbrev pub held : {E : Type 0} → Result E ReceiveResult → List ℕ
held (ok r) = r.stdout
held (err e) = []

module _ (remote : Remote) where
  open remote use {World, Context, Error, receive}

  -- `log w` is all that Receive has answered with up to the world `w`.
  abbrev pub Logs : (World → List ℕ) → Type 0
  Logs log =
      (c : Context) (e : Option EndpointReference) (id : Text) (w : World)
      → log (receive c e id w).0 ≡ log w ++ held (receive c e id w).1

  -- What was received is what was handed out, `given`, and then the buffer.
  abbrev Splits : (World → List ℕ) → List ℕ → WsManTransport remote → World → Type 0
  Splits log given t w = log w ≡ given ++ t.read_buf

  abbrev Delivers : (World → List ℕ) → List ℕ → Option (Outcome remote (List ℕ)) → Type 0
  Delivers log given none = Unit {0}
  Delivers log given (some (t, w, r)) = Splits log (given ++ handed r) t w

  buffered-Delivers :
      (log : World → List ℕ) (given : List ℕ) (t : WsManTransport remote) (n : ℕ) (w : World)
      → Splits log given t w
      → Delivers log given (some (read_buffered remote t n w))
  unfolding read_buffered
  buffered-Delivers log given t n w h = rw (append_assoc, take-append-drop n t.read_buf) h

  settle-Delivers :
      (log : World → List ℕ)
      (again : WsManTransport remote → ℕ → World → Option (Outcome remote (List ℕ)))
      (given : List ℕ) (t : WsManTransport remote) (n : ℕ) (w : World)
      → Splits log given t w
      → Delivers log given (again t n w)
      → Delivers log given (settle remote again t n w)
  unfolding settle
  settle-Delivers log again given t n w h k =
      ground (arith, append-nil given, buffered-Delivers log given t n w h)

  answered-Delivers :
      (log : World → List ℕ)
      (again : WsManTransport remote → ℕ → World → Option (Outcome remote (List ℕ)))
      (given : List ℕ) (t : WsManTransport remote) (n : ℕ) (a : World × Result Error ReceiveResult)
      → log a.0 ≡ (given ++ t.read_buf) ++ held a.1
      → ((t' : WsManTransport remote) (w' : World)
          → Splits log given t' w'
          → Delivers log given (again t' n w'))
      → Delivers log given (answered remote again t n a)
  unfolding answered
  answered-Delivers log again given t n (w, err e) h ih =
      rw append-nil (h ∙ append-nil (given ++ t.read_buf))
  answered-Delivers log again given t n (w, ok r) h ih =
      settle-Delivers log again given (absorb remote t r) n w split (ih (absorb remote t r) w split)
    where
      split : Splits log given (absorb remote t r) w
      split = unfold absorb in (h ∙ append_assoc given t.read_buf r.stdout)

  poll-Delivers :
      (log : World → List ℕ)
      → Logs log
      → (fuel : ℕ) (given : List ℕ) (t : WsManTransport remote) (n : ℕ) (w : World)
      → Splits log given t w
      → Delivers log given (poll remote fuel t n w)
  unfolding poll
  poll-Delivers log logs zero given t n w h = tt
  poll-Delivers log logs (suc fuel) given t n w h = ground (
    arith,
    append-nil given,
    answered-Delivers log (poll remote fuel) given t n (receive t.ctx t.epr t.command_id w)
        (logs t.ctx t.epr t.command_id w
          ∙ ap (λ xs. xs ++ held (receive t.ctx t.epr t.command_id w).1) h)
        (λ t' w' s. poll-Delivers log logs fuel given t' n w' s),
  )

  read-Delivers :
      (log : World → List ℕ)
      → Logs log
      → (fuel : ℕ) (given : List ℕ) (t : WsManTransport remote) (n : ℕ) (w : World)
      → Splits log given t w
      → Delivers log given (read remote fuel t n w)
  unfolding read
  read-Delivers log logs fuel given t n w h = ground (
    arith,
    append-nil given,
    buffered-Delivers log given t n w h,
    poll-Delivers log logs fuel given t n w h,
  )

  -- Calls of Read that return, one after another, and the bytes they hand out.
  pub data Reads
      : WsManTransport remote → World → List ℕ → WsManTransport remote → World → Type 0 where
    stop : {t : WsManTransport remote} {w : World} → Reads t w [] t w
    more :
        {t t₁ t₂ : WsManTransport remote} {w w₁ w₂ : World} {rest : List ℕ} (fuel n : ℕ)
        (r : Result (IoError remote) (List ℕ))
        → read remote fuel t n w ≡ some (t₁, w₁, r)
        → Reads t₁ w₁ rest t₂ w₂
        → Reads t w (handed r ++ rest) t₂ w₂

  Reads-split :
      {t t' : WsManTransport remote} {w w' : World} {bytes : List ℕ} (log : World → List ℕ)
      → Logs log
      → (given : List ℕ) → Splits log given t w
      → Reads t w bytes t' w'
      → Splits log (given ++ bytes) t' w'
  Reads-split log logs given h stop = rw append-nil h
  Reads-split {t} {w} log logs given h (more {t₁ = t₁} {w₁ = w₁} {rest = rest} fuel n r e rs) =
      rw (← append_assoc given (handed r) rest) (
        Reads-split log logs (given ++ handed r)
          (subst (Delivers log given) e (read-Delivers log logs fuel given t n w h)) rs)

  -- An end of file comes with an empty buffer.
  abbrev Drained : Option (Outcome remote (List ℕ)) → Type 0
  Drained (some (t, w, err eof)) = (t.read_buf ≡ []) × (t.done ≡ true)
  Drained _ = Unit {0}

  answered-Drained :
      (again : WsManTransport remote → ℕ → World → Option (Outcome remote (List ℕ)))
      (t : WsManTransport remote) (n : ℕ) (a : World × Result Error ReceiveResult)
      → ((t' : WsManTransport remote) (w' : World) → Drained (again t' n w'))
      → Drained (answered remote again t n a)
  unfolding answered read_buffered
  answered-Drained again t n (w, err e) ih = tt
  answered-Drained again t n (w, ok r) ih = ground (arith, ih (absorb remote t r) w)

  poll-Drained :
      (fuel : ℕ) (t : WsManTransport remote) (n : ℕ) (w : World) → Drained (poll remote fuel t n w)
  unfolding poll
  poll-Drained zero t n w = tt
  poll-Drained (suc fuel) t n w = ground (
    arith,
    answered-Drained (poll remote fuel) t n (receive t.ctx t.epr t.command_id w)
        (λ t' w'. poll-Drained fuel t' n w'),
  )

  read-Drained :
      (fuel : ℕ) (t : WsManTransport remote) (n : ℕ) (w : World) → Drained (read remote fuel t n w)
  unfolding read read_buffered
  read-Drained fuel t n w = ground (arith, poll-Drained fuel t n w)

  -- Whether a Read returned io.EOF.
  abbrev pub at_end : Result (IoError remote) (List ℕ) → Bool
  at_end (err eof) = true
  at_end _ = false

  rest_at_end :
      (t : WsManTransport remote) (w : World) (r : Result (IoError remote) (List ℕ))
      → Drained (some (t, w, r))
      → t.read_buf ≡ (if at_end r then [] else t.read_buf)
  rest_at_end t w (ok bytes) d = refl
  rest_at_end t w (err eof) d = d.0
  rest_at_end t w (err x) d = ground arith

  -- The calls of Read on a transport, in whatever sizes and whatever they return, hand out the bytes
  -- that Receive answered with, in order and without a gap: before the last of the calls and after
  -- it, all but those still in the buffer, of which there are none once it returns io.EOF.
  pub read_to_end :
      {t t' t₂ : WsManTransport remote} {w w' w₂ : World} {bytes : List ℕ} (log : World → List ℕ)
      → Logs log
      → log w ≡ t.read_buf
      → Reads t w bytes t' w'
      → (fuel n : ℕ) (r : Result (IoError remote) (List ℕ))
      → read remote fuel t' n w' ≡ some (t₂, w₂, r)
      → (log w' ≡ bytes ++ t'.read_buf)
        × (log w₂ ≡ (bytes ++ handed r) ++ (if at_end r then [] else t₂.read_buf))
  read_to_end {t' = t'} {t₂ = t₂} {w' = w'} {w₂ = w₂} {bytes = bytes} log logs start rs fuel n r e =
      (so_far, last ∙ ap (λ (b : List ℕ). (bytes ++ handed r) ++ b) rest)
    where
      so_far : log w' ≡ bytes ++ t'.read_buf
      so_far = Reads-split log logs [] start rs

      last : log w₂ ≡ (bytes ++ handed r) ++ t₂.read_buf
      last = subst (Delivers log bytes) e (read-Delivers log logs fuel bytes t' n w' so_far)

      rest : t₂.read_buf ≡ (if at_end r then [] else t₂.read_buf)
      rest = rest_at_end t₂ w₂ r (subst Drained e (read-Drained fuel t' n w'))
