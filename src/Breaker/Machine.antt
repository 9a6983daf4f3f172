-- ===== src/Breaker/Machine.antt =====
-- client/breaker.go against two independent descriptions: the streak of failures that opens a closed
-- circuit, and the state changes that the callbacks are told of.
use go_psrp.Common.{
  ℕ, suc, ◌+◌, ◌≤◌, ◌<◌, ◌≡◌, refl, ◌↔◌, ◌⊎◌, inl, inr, none, some, List, [], ◌∷◌, ◌++◌, arith,
  length, Bool-cases, leb, ap, sym, ◌∙◌, Bool, true, ◌||◌,
}
use go_psrp.Common.Errors.{GoError}
use go_psrp.Common.Int.{pos}
use go_psrp.Breaker.{
  state_closed, CircuitBreakerPolicy, CircuitBreaker, failed, new_circuit_breaker, execute,
}
use go_psrp.Breaker.Calls.{is_open}

-- What the function of a call of Execute returns if it runs, and the clock at the call and after the
-- function. The function may have any error of its own.
pub data Outcome : Type 0 where
  good : ℕ → ℕ → Outcome
  bad : GoError → ℕ → ℕ → Outcome

-- A call of Execute.
unfoldable pub call : CircuitBreaker → Outcome → CircuitBreaker
call cb (good now later) = (execute {W = Unit {0}} cb (λ w. (w, none)) tt now later).0
call cb (bad e now later) = (execute {W = Unit {0}} cb (λ w. (w, some (failed e))) tt now later).0

-- Whether the circuit is open at first, or after one of the calls.
unfoldable pub ever_open : CircuitBreaker → List Outcome → Bool
ever_open cb [] = is_open cb.state
ever_open cb (o ∷ os) = is_open cb.state || ever_open (call cb o) os

abbrev pub AllBad : List Outcome → Type 0
AllBad [] = Unit {0}
AllBad (good now later ∷ os) = ⊥
AllBad (bad e now later ∷ os) = AllBad os

-- Some `n` outcomes in a row are failures.
abbrev pub Streak : ℕ → List Outcome → Type 0
Streak n os =
    (before : List Outcome) × (row : List Outcome) × (rest : List Outcome) × (os
      ≡ before ++ (row ++ rest))
    × AllBad row
    × (length row ≡ n)

-- A closed circuit with `k` failures that opens at `n`.
record Counting (cb : CircuitBreaker) (n k : ℕ) : Type 0 where
  is_on : cb.enabled ≡ true
  is_closed : cb.state ≡ state_closed
  at : cb.threshold ≡ pos n
  count : cb.failures ≡ k

call_good :
    (cb : CircuitBreaker) (now later n k : ℕ)
    → Counting cb n k
    → Counting (call cb (good now later)) n 0
unfolding call execute
call_good cb now later n k c = ground arith

call_bad :
    (cb : CircuitBreaker) (e : GoError) (now later n k : ℕ)
    → Counting cb n k
    → suc k < n
    → Counting (call cb (bad e now later)) n (suc k)
unfolding call execute
call_bad cb e now later n k c h = ground arith

call_trips :
    (cb : CircuitBreaker) (e : GoError) (now later n k : ℕ)
    → Counting cb n k
    → n ≤ suc k
    → is_open (call cb (bad e now later)).state ≡ true
unfolding call execute
call_trips cb e now later n k c h = ground arith

open_now :
    (cb : CircuitBreaker) (os : List Outcome) → is_open cb.state ≡ true → ever_open cb os ≡ true
unfolding ever_open
open_now cb [] h = h
open_now cb (o ∷ os) h = ground (arith, h)

-- A closed circuit that is open at some time is so after its first call or later.
open_later :
    (cb : CircuitBreaker) (o : Outcome) (os : List Outcome) (n k : ℕ)
    → Counting cb n k
    → ever_open cb (o ∷ os) ≡ ever_open (call cb o) os
unfolding ever_open
open_later cb o os n k c = ground (arith, c.is_closed)

-- Either the remaining outcomes hold a whole streak, or they begin with what is missing of one.
abbrev Completes : ℕ → ℕ → List Outcome → Type 0
Completes n k os =
    Streak n os
    ⊎ ((row : List Outcome) × (rest : List Outcome) × (os ≡ row ++ rest)
        × AllBad row
        × (k + length row ≡ n))

Streak-later : (n : ℕ) (o : Outcome) (os : List Outcome) → Streak n os → Streak n (o ∷ os)
Streak-later n o os (before, row, rest, e, b, l) = (o ∷ before, row, rest, ap (◌∷◌ o) e, b, l)

opened-Completes :
    (os : List Outcome) (cb : CircuitBreaker) (n k : ℕ)
    → Counting cb n k
    → k < n
    → ever_open cb os ≡ true
    → Completes n k os
unfolding ever_open
opened-Completes [] cb n k c h opened = absurd (ground (arith, c.is_closed, opened))
opened-Completes (good now later ∷ os) cb n k c h opened =
    let next = open_later cb (good now later) os n k c in
    elim (opened-Completes os (call cb (good now later)) n 0 (call_good cb now later n k c)
      (omega arith) (sym next ∙ opened)) [
        | inl s ↦ inl (Streak-later n (good now later) os s)
        | inr (row, rest, e, b, l) ↦
            inl (good now later ∷ [], row, rest, ap (◌∷◌ (good now later)) e, b, omega arith)
      ]
opened-Completes (bad e now later ∷ os) cb n k c h opened = elim (Bool-cases (leb n (suc k))) [
  | inl reached ↦ inr (bad e now later ∷ [], os, refl, tt, ground arith)
  | inr short ↦
      let next = open_later cb (bad e now later) os n k c in
      elim (opened-Completes os (call cb (bad e now later)) n (suc k)
        (call_bad cb e now later n k c (ground (arith, short))) (ground (arith, short))
        (sym next ∙ opened)) [
          | inl s ↦ inl (Streak-later n (bad e now later) os s)
          | inr (row, rest, p, b, l) ↦
              inr (bad e now later ∷ row, rest, ap (◌∷◌ (bad e now later)) p, b, omega arith)
        ]
]

row_opens :
    (row rest : List Outcome) (cb : CircuitBreaker) (n k : ℕ)
    → Counting cb n k
    → k < n
    → AllBad row
    → n ≤ k + length row
    → ever_open cb (row ++ rest) ≡ true
row_opens [] rest cb n k c h b l = absurd (omega arith)
row_opens (good now later ∷ row) rest cb n k c h b l = absurd b
row_opens (bad e now later ∷ row) rest cb n k c h b l =
    open_later cb (bad e now later) (row ++ rest) n k c ∙ elim (Bool-cases (leb n (suc k))) [
      | inl reached ↦
          open_now (call cb (bad e now later)) (row ++ rest)
            (call_trips cb e now later n k c (ground (arith, reached)))
      | inr short ↦
          row_opens row rest (call cb (bad e now later)) n (suc k)
            (call_bad cb e now later n k c (ground (arith, short))) (ground (arith, short)) b
            (omega arith)
    ]

streak_opens :
    (before row rest : List Outcome) (cb : CircuitBreaker) (n k : ℕ)
    → Counting cb n k
    → k < n
    → AllBad row
    → length row ≡ n
    → ever_open cb (before ++ (row ++ rest)) ≡ true
streak_opens [] row rest cb n k c h b l = row_opens row rest cb n k c h b (omega arith)
streak_opens (good now later ∷ before) row rest cb n k c h b l =
    open_later cb (good now later) (before ++ (row ++ rest)) n k c
    ∙ streak_opens before row rest (call cb (good now later)) n 0 (call_good cb now later n k c)
        (omega arith) b l
streak_opens (bad e now later ∷ before) row rest cb n k c h b l =
    open_later cb (bad e now later) (before ++ (row ++ rest)) n k c
    ∙ elim (Bool-cases (leb n (suc k))) [
      | inl reached ↦
          open_now (call cb (bad e now later)) (before ++ (row ++ rest))
            (call_trips cb e now later n k c (ground (arith, reached)))
      | inr short ↦
          streak_opens before row rest (call cb (bad e now later)) n (suc k)
            (call_bad cb e now later n k c (ground (arith, short))) (ground (arith, short)) b l
    ]

-- A new enabled breaker with failure threshold `n + 1`, with calls of Execute one after another at any
-- times: the circuit is open after one of the calls exactly when the functions of `n + 1` calls in a
-- row fail. The function of a call that an open circuit turns away counts with what it would
-- return.
pub opens_at-Streak :
    (p : CircuitBreakerPolicy) (n : ℕ) (os : List Outcome)
    → p.enabled ≡ true
    → p.failure_threshold ≡ pos (suc n)
    → (ever_open (new_circuit_breaker (some p)) os ≡ true) ↔ Streak (suc n) os
opens_at-Streak p n os on e = (to, from)
  where
    cb : CircuitBreaker
    cb = new_circuit_breaker (some p)

    start : Counting cb (suc n) 0
    start = unfold new_circuit_breaker in ground arith

    to : ever_open cb os ≡ true → Streak (suc n) os
    to opened = elim (opened-Completes os cb (suc n) 0 start (omega arith) opened) [
      | inl s ↦ s
      | inr (row, rest, q, b, l) ↦ ([], row, rest, q, b, omega arith)
    ]

    from : Streak (suc n) os → ever_open cb os ≡ true
    from (before, row, rest, q, b, l) =
        rw q (streak_opens before row rest cb (suc n) 0 start (omega arith) b l)
