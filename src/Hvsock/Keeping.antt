-- ===== src/Hvsock/Keeping.antt =====
-- hvsock/auth.go: the exchanges of texts open and close no connection.
use go_psrp.Common.{
  ℕ, ◌+◌, ◌-◌, ◌≡◌, refl, ◌∙◌, Bool, true, false, Option, none, some, if◌then◌else◌, arith,
}
use go_psrp.Common.State.{Result, ok, err, continue, ◌>>=◌, ◌>>◌, pure}
use go_psrp.Common.Text.{Text, codes}
use go_psrp.Common.Errors.{GoError}
use go_psrp.Hvsock.{
  Sockets, Service, Step, calls, received, read_reset, receive_ascii_with_timeout, receive_ascii,
  tagged, receive_ack, send, send_anyway, require, version_exchange, send_password,
  send_configuration, receive_token, credentials_answered, authenticate_with_broker,
  authenticate_with_token, default_auth_timeout,
}

abbrev pub one_if_ok : {A : Type 0} → Result GoError A → ℕ
one_if_ok (ok a) = 1
one_if_ok (err e) = 0

module _ (sockets : Sockets) where
  open sockets use {World, Conn, dial, set_read_deadline, read, write, close, sleep, wait}

  -- `opened` counts the open connections: a dial that succeeds opens one, Close closes one, and
  -- nothing else opens or closes any.
  pub record Counts (opened : World → ℕ) : Type 0 where
    pub dials :
        (s : Service) (n : ℕ) (w : World)
        → let r = dial s n w in opened r.0 ≡ opened w + one_if_ok r.1
    pub closes : (c : Conn) (w : World) → opened (close c w) ≡ opened w - 1
    pub deadlines :
        (t : Option ℕ) (c : Conn) (w : World) → opened (set_read_deadline t c w).0 ≡ opened w
    pub reads : (n : ℕ) (c : Conn) (w : World) → opened (read n c w).0 ≡ opened w
    pub writes : (s : Text) (c : Conn) (w : World) → opened (write s c w).0 ≡ opened w
    pub sleeps : (n : ℕ) (w : World) → opened (sleep n w) ≡ opened w
    pub waits : (n : ℕ) (w : World) → opened (wait n w).0 ≡ opened w

  module _ (opened : World → ℕ) (counts : Counts opened) where
    unfoldable pub Keeps : {A : Type 0} → Step sockets A → Type 0
    Keeps m = (w : World) → opened (m w).0 ≡ opened w

    continue-Keeps :
        {A B : Type 0} (r : World × Result GoError A) (f : A → Step sockets B)
        → ((a : A) → Keeps (f a))
        → opened (continue r f).0 ≡ opened r.0
    unfolding Keeps
    continue-Keeps (w, ok a) f k = k a w
    continue-Keeps (w, err e) f k = refl

    bind-Keeps :
        {A B : Type 0} (m : Step sockets A) (f : A → Step sockets B)
        → Keeps m
        → ((a : A) → Keeps (f a))
        → Keeps (m >>= f)
    unfolding Keeps
    bind-Keeps m f k l w = continue-Keeps (m w) f l ∙ k w

    then-Keeps :
        {B : Type 0} (m : Step sockets (Unit {0})) (k : Step sockets B)
        → Keeps m
        → Keeps k
        → Keeps (m >> k)
    then-Keeps m k h l = bind-Keeps m (λ _. k) h (λ _. l)

    calls-Keeps :
        (prefix : Text) (f : World → World × Option GoError)
        → ((w : World) → opened (f w).0 ≡ opened w)
        → Keeps (calls sockets prefix f)
    unfolding Keeps calls
    calls-Keeps prefix f k w = k w

    tagged-Keeps :
        {A : Type 0} (prefix : Text) (m : Step sockets A)
        → Keeps m
        → Keeps (tagged sockets prefix m)
    unfolding Keeps tagged
    tagged-Keeps prefix m k w = k w

    pure-Keeps : {A : Type 0} (a : A) → Keeps (pure a)
    unfolding Keeps
    pure-Keeps a w = refl

    if_Keeps :
        {A : Type 0} (b : Bool) (m k : Step sockets A)
        → Keeps m
        → Keeps k
        → Keeps (if b then m else k)
    if_Keeps true m k h l = h
    if_Keeps false m k h l = l

    require-Keeps : (b : Bool) (e : GoError) → Keeps (require sockets b e)
    unfolding Keeps require
    require-Keeps true e w = refl
    require-Keeps false e w = refl

    received-Keeps : (r : Result GoError Text) → Keeps (received sockets r)
    unfolding Keeps received
    received-Keeps (ok bytes) w = ground arith
    received-Keeps (err e) w = ground arith

    read_reset-Keeps : (max : ℕ) (c : Conn) → Keeps (read_reset sockets max c)
    unfolding Keeps read_reset
    read_reset-Keeps max c w =
        let r = read max c w in
        counts.deadlines none c (received sockets r.1 r.0).0
        ∙ received-Keeps r.1 r.0
        ∙ counts.reads max c w

    receive-Keeps : (max n : ℕ) (c : Conn) → Keeps (receive_ascii_with_timeout sockets max n c)
    unfolding receive_ascii_with_timeout
    receive-Keeps max n c =
        then-Keeps (calls sockets (codes "set read deadline: ") (set_read_deadline (some n) c))
          (read_reset sockets max c)
          (calls-Keeps (codes "set read deadline: ") (set_read_deadline (some n) c)
            (counts.deadlines (some n) c))
          (read_reset-Keeps max c)

    send-Keeps : (prefix bytes : Text) (c : Conn) → Keeps (send sockets prefix bytes c)
    unfolding send
    send-Keeps prefix bytes c = calls-Keeps prefix (write bytes c) (counts.writes bytes c)

    ack-Keeps : (prefix : Text) (c : Conn) → Keeps (receive_ack sockets prefix c)
    unfolding receive_ack receive_ascii Keeps
    ack-Keeps prefix c w =
        bind-Keeps (tagged sockets prefix (receive_ascii sockets 4 c)) (λ ack. pure tt)
          (tagged-Keeps prefix (receive_ascii sockets 4 c) (receive-Keeps 4 default_auth_timeout c))
          (λ ack w'. refl) w

    ruleset keeps = (
      then-Keeps, bind-Keeps, pure-Keeps, send-Keeps, ack-Keeps, tagged-Keeps, receive-Keeps,
      require-Keeps,
    )

    version-Keeps : (legacy : Text) (c : Conn) → Keeps (version_exchange sockets legacy c)
    unfolding Keeps version_exchange receive_ascii
    version-Keeps legacy c = search keeps

    password-Keeps : (pass : Text) (c : Conn) → Keeps (send_password sockets pass c)
    unfolding Keeps send_password
    password-Keeps pass c = search (if_Keeps, keeps)

    configuration-Keeps : (name : Text) (c : Conn) → Keeps (send_configuration sockets name c)
    unfolding Keeps send_configuration
    configuration-Keeps name c = search (if_Keeps, keeps)

    receive_token-Keeps : (c : Conn) → Keeps (receive_token sockets c)
    unfolding Keeps receive_token
    receive_token-Keeps c = search keeps

    anyway-Keeps : (bytes : Text) (c : Conn) → Keeps (send_anyway sockets bytes c)
    unfolding Keeps send_anyway
    anyway-Keeps bytes c w = counts.writes bytes c w

    credentials-Keeps :
        (name answer : Text) (c : Conn) → Keeps (credentials_answered sockets name answer c)
    unfolding Keeps credentials_answered
    credentials-Keeps name answer c =
        search (if_Keeps, keeps, anyway-Keeps, configuration-Keeps, receive_token-Keeps)

    answered-Keeps :
        (name : Text) (c : Conn)
        → Keeps (
            tagged sockets (codes "read credential response: ") (receive_ascii sockets 4 c)
            >>= λ answer. credentials_answered sockets name answer c)
    unfolding Keeps receive_ascii
    answered-Keeps name c = search (bind-Keeps, tagged-Keeps, receive-Keeps, credentials-Keeps)

    pub broker-Keeps :
        (domain user pass name : Text) (c : Conn)
        → Keeps (authenticate_with_broker sockets domain user pass name c)
    unfolding Keeps authenticate_with_broker receive_ascii
    broker-Keeps domain user pass name c =
        search (then-Keeps, send-Keeps, ack-Keeps, version-Keeps, password-Keeps, answered-Keeps)
          depth 12

    pub token-Keeps : (token : Text) (c : Conn) → Keeps (authenticate_with_token sockets token c)
    unfolding Keeps authenticate_with_token receive_ascii
    token-Keeps token c = search (keeps, version-Keeps)
