-- ===== src/Reconnection/Examples.antt =====
-- client/reconnect.go: a server that fails some times.
use go_psrp.Common.{
  ℕ, zero, suc, ◌≡◌, ◌⊎◌, inl, inr, refl, true, Option, none, some, is_some, arith,
}
use go_psrp.Common.Int.{ℤ, pos, ltb_ℤ, leb_ℤ}
use go_psrp.Common.Errors.{GoError, sentinel, eof}
use go_psrp.Retry.{Floats, ReconnectPolicy}
use go_psrp.Reconnection.{Env, attempt_reconnect_with_backoff, calculate_backoff}
use go_psrp.Reconnection.Attempts.{ComesBack, attempts_end, reaches}

-- Numbers in place of floats.
abbrev numbers : Floats
numbers = record {
  Float = ℤ;
  of_int = λ n. n;
  add = λ a b. a;
  sub = λ a b. a;
  mul = λ a b. a;
  pow = λ a b. a;
  lt = ltb_ℤ;
  le = leb_ℤ;
  trunc = λ x. x;
}

-- The world is the number of failures to come.
abbrev tried : ℕ → ℕ × Option GoError
tried zero = (zero, none)
tried (suc n) = (n, some (sentinel eof))

abbrev failing : Env
failing = record {
  floats = numbers;
  World = ℕ;
  rand = λ w. (w, pos 0);
  attempt_reconnect = tried;
  wait = λ d w. (w, none);
  interrupted = λ w. none;
}

abbrev policy : ℕ → ReconnectPolicy numbers
policy n = record {
  enabled = true;
  max_attempts = pos n;
  initial_delay = pos 1;
  max_delay = pos 30;
  jitter = pos 0;
}

gives_up : attempt_reconnect_with_backoff failing (policy 2) 3 5 ≡ (3, some (some (sentinel eof)))
unfolding attempt_reconnect_with_backoff calculate_backoff
gives_up = refl

closer : (w : ℕ) → ((tried w).1 ≡ none) ⊎ (suc (tried w).0 ≡ w)
closer zero = inl refl
closer (suc w) = inr refl

failing-ComesBack : ComesBack failing (λ w. w)
failing-ComesBack = record {
  closer = closer;
  waits = λ d w. (refl, refl);
  draws = λ w. refl;
  uninterrupted = λ w. refl;
}

reaches_example : (attempt_reconnect_with_backoff failing (policy 0) 6 5).1 ≡ some none
reaches_example = reaches failing failing-ComesBack (policy 0) 5 (inl refl)

attempts_end_example : is_some (attempt_reconnect_with_backoff failing (policy 2) 3 5).1 ≡ true
attempts_end_example = attempts_end failing (policy 2) 2 5 refl (omega arith)
