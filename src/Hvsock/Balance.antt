-- ===== src/Hvsock/Balance.antt =====
-- hvsock/auth.go: the connections that a PowerShell Direct connection leaves open.
use go_psrp.Common.{ℕ, zero, suc, ◌+◌, ◌*◌, ◌≡◌, ◌∙◌, Option, none, some, arith}
use go_psrp.Common.State.{Result, ok, err, continue, ◌>>=◌, ◌>>◌}
use go_psrp.Common.Text.{Text, codes}
use go_psrp.Common.Errors.{GoError}
use go_psrp.Hvsock.{
  Sockets, broker, server, Step, tagged, authenticate_with_broker, authenticate_with_token,
  last_dialed, waited, dialed, dial_attempts, broker_closed, server_answered, stage_one, stage_two,
  started, connect_and_authenticate, millisecond, default_auth_timeout, next_delay,
}
use go_psrp.Hvsock.Keeping.{one_if_ok, Counts, Keeps, broker-Keeps, token-Keeps}

module _ (sockets : Sockets) where
  open sockets use {World, Conn, dial, set_read_deadline, read, write, close, sleep, wait}

  module _ (opened : World → ℕ) (counts : Counts sockets opened) where
    -- The connections that a step leaves open: those before, and one more if it succeeds.
    Opens : {A : Type 0} → ℕ → World × Result GoError A → Type 0
    Opens before r = opened r.0 ≡ before + one_if_ok r.1

    last_dialed_lem :
        (before : ℕ) (r : World × Result GoError Conn)
        → Opens before r
        → Opens before (last_dialed sockets r)
    unfolding Opens last_dialed
    last_dialed_lem before (w, ok c) h = h
    last_dialed_lem before (w, err e) h = h

    waited_lem :
        (before : ℕ) (again : Step sockets Conn) (r : World × Option GoError)
        → ((w : World) → Opens (opened w) (again w))
        → opened r.0 ≡ before
        → Opens before (waited sockets again r)
    unfolding Opens waited
    waited_lem before again (w, none) h e = omega (arith, h w, e)
    waited_lem before again (w, some x) h e = omega (arith, e)

    dialed_lem :
        (before delay : ℕ) (again : Step sockets Conn) (r : World × Result GoError Conn)
        → ((w : World) → Opens (opened w) (again w))
        → Opens before r
        → Opens before (dialed sockets again delay r)
    unfolding Opens dialed
    dialed_lem before delay again (w, ok c) h e = e
    dialed_lem before delay again (w, err x) h e =
        waited_lem before again (wait delay w) h (omega (arith, counts.waits delay w, e))

    dial_attempts-Opens :
        (n delay : ℕ) (w : World) → Opens (opened w) (dial_attempts sockets n delay w)
    unfolding Opens dial_attempts
    dial_attempts-Opens zero delay w =
        last_dialed_lem (opened w) (dial server (5000 * millisecond) w)
          (counts.dials server (5000 * millisecond) w)
    dial_attempts-Opens (suc n) delay w =
        dialed_lem (opened w) delay (dial_attempts sockets n (next_delay delay))
          (dial server (5000 * millisecond) w) (dial_attempts-Opens n (next_delay delay))
          (counts.dials server (5000 * millisecond) w)

    broker_closed_lem :
        (c : Conn) (before : ℕ) (r : World × Result GoError Text)
        → opened r.0 ≡ before + 1
        → opened (broker_closed sockets c r).0 ≡ before
    unfolding broker_closed
    broker_closed_lem c before (w, ok token) e = ground (arith, counts.closes c w, e)
    broker_closed_lem c before (w, err x) e = ground (arith, counts.closes c w, e)

    server_answered_lem :
        (c : Conn) (before : ℕ) (r : World × Result GoError (Unit {0}))
        → opened r.0 ≡ before + 1
        → Opens before (server_answered sockets c r)
    unfolding Opens server_answered
    server_answered_lem c before (w, ok done) e = e
    server_answered_lem c before (w, err x) e = omega (arith, counts.closes c w, e)

    with_server :
        (token : Text) (before : ℕ) (r : World × Result GoError Conn)
        → Opens before r
        → Opens before (continue r (stage_two sockets token))
    unfolding Opens Keeps stage_two
    with_server token before (w, ok c) h =
        server_answered_lem c before (authenticate_with_token sockets token c w)
          (token-Keeps sockets opened counts token c w ∙ h)
    with_server token before (w, err e) h = h

    with_token :
        (before : ℕ) (r : World × Result GoError Text)
        → opened r.0 ≡ before
        → Opens before (
            continue r (λ token.
              started sockets
              >> (dial_attempts sockets 9 (250 * millisecond) >>= λ c. stage_two sockets token c)))
    unfolding Opens started
    with_token before (w, err e) h = omega (arith, h)
    with_token before (w, ok token) h =
        let w' = sleep (500 * millisecond) w in
        with_server token before (dial_attempts sockets 9 (250 * millisecond) w') (
          omega (
            arith,
            dial_attempts-Opens 9 (250 * millisecond) w',
            counts.sleeps (500 * millisecond) w,
            h,
          ))

    with_broker :
        (domain user pass name : Text) (before : ℕ) (r : World × Result GoError Conn)
        → Opens before r
        → Opens before (
            continue r (λ c. stage_one sockets domain user pass name c >>= λ token.
            started sockets
            >> (dial_attempts sockets 9 (250 * millisecond) >>= λ c'. stage_two sockets token c')))
    unfolding Opens Keeps stage_one
    with_broker domain user pass name before (w, err e) h = h
    with_broker domain user pass name before (w, ok c) h =
        let r = authenticate_with_broker sockets domain user pass name c w in
        with_token before (broker_closed sockets c r) (
          broker_closed_lem c before r
            (broker-Keeps sockets opened counts domain user pass name c w ∙ h))

    tagged-Opens :
        (prefix : Text) (before : ℕ) (r : World × Result GoError Conn)
        → Opens before r
        → Opens before (tagged sockets prefix (λ w. r) r.0)
    unfolding Opens tagged
    tagged-Opens prefix before (w, ok c) h = h
    tagged-Opens prefix before (w, err e) h = h

    -- However the sockets answer: a PowerShell Direct connection that succeeds leaves one connection
    -- more open than before, and one that fails leaves none more.
    pub connect_and_authenticate-Opens :
        (domain user pass name : Text) (w : World)
        → let r = connect_and_authenticate sockets domain user pass name w in
          opened r.0 ≡ opened w + one_if_ok r.1
    unfolding connect_and_authenticate Opens tagged
    connect_and_authenticate-Opens domain user pass name w =
        let r = dial broker default_auth_timeout w in
        with_broker domain user pass name (opened w)
          (tagged sockets (codes "dial broker: ") (dial broker default_auth_timeout) w)
          (tagged-Opens (codes "dial broker: ") (opened w) r
            (counts.dials broker default_auth_timeout w))
