-- ===== src/Powershell/Transport/Polling.antt =====
-- powershell/transport.go: how often Read polls before it returns.
use go_psrp.Common.{
  ℕ, zero, suc, ◌≡◌, ◌≢◌, refl, Bool, true, false, ◌||◌, not, Option, none, some, List, [], ◌∷◌,
  ◌++◌, arith, ◌≤◌, ◌&&◌, Option-cases, inl, inr,
}
use go_psrp.Common.State.{Result, ok, err}
use go_psrp.Powershell.Remote.{Remote, ReceiveResult, EndpointReference}
use go_psrp.Powershell.Transport.{
  WsManTransport, Outcome, is_nil, read, poll, settle, absorb, read_buffered, answered,
}
use go_psrp.Common.Text.{Text}

-- An answer that holds data, the end of the command or an error.
abbrev pub speaks : {E : Type 0} → Result E ReceiveResult → Bool
speaks (ok r) = not (is_nil r.stdout) || r.done
speaks (err e) = true

is_nil-append : (xs ys : List ℕ) → is_nil (xs ++ ys) ≡ (is_nil xs && is_nil ys)
is_nil-append [] ys = refl
is_nil-append (x ∷ xs) ys = refl

module _ (remote : Remote) where
  open remote use {World, Context, Error, receive, context_error}

  -- Within `k` polls the context has ended or the server has spoken.
  abbrev pub settles : ℕ → Context → Option EndpointReference → Text → World → Bool
  settles zero c e id w = false
  settles (suc k) c e id w = elim (context_error w c) [
    | some x ↦ true
    | none ↦ speaks (receive c e id w).1 || settles k c e id (receive c e id w).0
  ]

  answered_returns :
      (again : WsManTransport remote → ℕ → World → Option (Outcome remote (List ℕ)))
      (t : WsManTransport remote) (n : ℕ) (a : World × Result Error ReceiveResult) (rest : Bool)
      → (speaks a.1 || rest) ≡ true
      → ((t' : WsManTransport remote)
          → t'.ctx ≡ t.ctx
          → t'.epr ≡ t.epr
          → t'.command_id ≡ t.command_id
          → rest ≡ true
          → again t' n a.0 ≢ none)
      → answered remote again t n a ≢ none
  unfolding answered
  answered_returns again t n (w, err e) rest h ih = λ q. cc
  answered_returns again t n (w, ok r) rest h ih =
      let now = absorb remote t r in
      unfold settle absorb read_buffered in
      ground (arith, is_nil-append t.read_buf r.stdout, ih now refl refl refl)

  poll_returns :
      (k fuel : ℕ) (t : WsManTransport remote) (n : ℕ) (w : World)
      → settles k t.ctx t.epr t.command_id w ≡ true
      → k ≤ fuel
      → poll remote fuel t n w ≢ none
  unfolding poll
  poll_returns zero fuel t n w h le = cc
  poll_returns (suc k) zero t n w h le = absurd (omega arith)
  poll_returns (suc k) (suc fuel) t n w h le =
      let a = receive t.ctx t.epr t.command_id w in
      let rest = settles k t.ctx t.epr t.command_id a.0 in
      elim (Option-cases (context_error w t.ctx)) [
        | inl live ↦ ground (
          arith,
          answered_returns (poll remote fuel) t n a rest (ground (arith, h, live))
              (λ t' p q i e. poll_returns k fuel t' n a.0 (rw (p, q, i) e) (omega arith)),
        )
        | inr (x, ended) ↦ ground arith
      ]

  -- Read returns if within `k` polls the context ends or Receive answers with data, the end of the
  -- command or an error: fuel for `k` polls is then enough.
  pub read_returns :
      (k fuel : ℕ) (t : WsManTransport remote) (n : ℕ) (w : World)
      → settles k t.ctx t.epr t.command_id w ≡ true
      → k ≤ fuel
      → read remote fuel t n w ≢ none
  unfolding read read_buffered
  read_returns k fuel t n w h le = ground (arith, poll_returns k fuel t n w h le)
