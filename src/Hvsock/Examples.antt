-- ===== src/Hvsock/Examples.antt =====
-- hvsock/auth.go: a broker that hands out a token, and a process that takes it.
use go_psrp.Common.{ℕ, ◌+◌, ◌-◌, ◌≡◌, refl, false, none, List, [], ◌∷◌}
use go_psrp.Common.State.{Result, ok, err}
use go_psrp.Common.Text.{Text, codes}
use go_psrp.Common.Errors.{GoError, sentinel, eof}
use go_psrp.Hvsock.{
  Sockets, connect_and_authenticate, authenticate_with_broker, authenticate_with_token,
  dial_attempts,
}
use go_psrp.Hvsock.Keeping.{Counts, one_if_ok}
use go_psrp.Hvsock.Balance.{connect_and_authenticate-Opens}

-- The world is the number of open connections and what the peers still answer.
abbrev next_answer : List Text → Result GoError Text
next_answer [] = err (sentinel eof)
next_answer (s ∷ answers) = ok s

abbrev later : List Text → List Text
later [] = []
later (s ∷ answers) = answers

abbrev peers : Sockets
peers = record {
  World = ℕ × List Text;
  Conn = Unit {0};
  dial = λ s n w. ((w.0 + 1, w.1), ok tt);
  set_read_deadline = λ t c w. (w, none);
  read = λ n c w. ((w.0, later w.1), next_answer w.1);
  write = λ s c w. (w, none);
  close = λ c w. (w.0 - 1, w.1);
  is_timeout = λ e. false;
  sleep = λ n w. w;
  wait = λ n w. (w, none);
}

peers-Counts : Counts peers (λ w. w.0)
peers-Counts = record {
  dials = λ s n w. refl;
  closes = λ c w. refl;
  deadlines = λ t c w. refl;
  reads = λ n c w. refl;
  writes = λ s c w. refl;
  sleeps = λ n w. refl;
  waits = λ n w. refl;
}

abbrev all_answers : List Text
all_answers =
    codes "VERSION_2"
    ∷ codes "PASS"
    ∷ codes "PASS"
    ∷ codes "PASS"
    ∷ codes "PASS"
    ∷ codes "CONF"
    ∷ codes "TOKEN abc"
    ∷ codes "VERSION_2"
    ∷ codes "PASS"
    ∷ codes "PASS"
    ∷ []

connects :
    connect_and_authenticate peers [] (codes "me") (codes "pw") [] (0, all_answers)
    ≡ ((1, []), ok tt)
unfolding connect_and_authenticate authenticate_with_broker authenticate_with_token dial_attempts
connects = refl

connect_and_authenticate-Opens_example :
    let r = connect_and_authenticate peers [] (codes "me") (codes "pw") [] (0, all_answers) in
    r.0.0 ≡ 0 + one_if_ok r.1
connect_and_authenticate-Opens_example =
    connect_and_authenticate-Opens peers (λ w. w.0) peers-Counts [] (codes "me") (codes "pw") []
      (0, all_answers)
