-- ===== src/Winrs.antt =====
-- winrs/shell.go and winrs/process.go: shells and the processes that run in them. The transport is a
-- parameter; the loop of Wait is on fuel, since a process may run for ever.
pub mod Output
mod Examples
use go_psrp.Common.{
  ℕ, zero, suc, Bool, true, false, Option, none, some, List, [], ◌++◌, if◌then◌else◌,
}
use go_psrp.Common.Int.{ℤ, pos}
use go_psrp.Common.State.{Result, ok, err}
use go_psrp.Common.Text.{Text, codes, is_empty}
use go_psrp.Common.Errors.{GoError, message, wrap}

pub record ReceiveResult : Type 0 where
  pub stdout : Text
  pub stderr : Text
  pub exit_code : ℤ
  pub done : Bool

-- The transport's calls for one shell, and ctx.Err() if the context is done.
pub record Transport : Type 1 where
  pub World : Type 0
  pub delete : World → World × Option GoError
  -- With the executable and the joined arguments; the command's identifier.
  pub command : Text → Text → World → World × Result GoError Text
  pub receive : Text → World → World × Result GoError ReceiveResult
  pub send : Text → Text → World → World × Option GoError
  pub ended : World → Option GoError

pub record Process : Type 0 where
  pub command_id : Text
  pub stdout : Text
  pub stderr : Text
  pub exit_code : ℤ
  pub done : Bool

unfoldable pub new_process : Text → Process
new_process id = record {
  command_id = id;
  stdout = [];
  stderr = [];
  exit_code = pos 0;
  done = false;
}

-- The part of Wait and of SetResult under the lock.
unfoldable pub add_result : ReceiveResult → Process → Process
add_result r p = record p {
  stdout = p.stdout ++ r.stdout;
  stderr = p.stderr ++ r.stderr;
  exit_code = r.exit_code;
}

unfoldable pub set_result : ReceiveResult → Process → Process
unfolding add_result
set_result r p = record (add_result r p) { done = r.done }

module _ (transport : Transport) where
  open transport use {World, delete, command, receive, send, ended}

  -- The process, and the error or the end of the fuel.
  abbrev pub Waiting : Type 0
  Waiting = World × Process × Option (Result GoError (Unit {0}))

  unfoldable pub received :
      (World → Process → Waiting) → Process → World × Result GoError ReceiveResult → Waiting
  unfolding add_result
  received again p (w, err e) = (w, p, some (err (wrap (codes "winrs: receive output: ") e)))
  received again p (w, ok r) =
      if r.done
      then (w, record (add_result r p) { done = true }, some (ok tt))
      else elim (ended w) [
        | some e ↦ (w, add_result r p, some (err e))
        | none ↦ again w (add_result r p)
      ]

  unfoldable pub receiving : ℕ → World → Process → Waiting
  unfolding received
  receiving zero w p = (w, p, none)
  receiving (suc fuel) w p = received (receiving fuel) p (receive p.command_id w)

  unfoldable pub wait : ℕ → World → Process → Waiting
  unfolding receiving
  wait fuel w p = if p.done then (w, p, some (ok tt)) else receiving fuel w p

  started : World × Result GoError Text → World × Result GoError Process
  started (w, err e) = (w, err (wrap (codes "winrs: start command: ") e))
  started (w, ok id) = (w, ok (new_process id))

  -- `closed` is the shell's flag.
  unfoldable pub start : Bool → Text → Text → World → World × Result GoError Process
  unfolding started
  start closed executable arguments w =
      if closed
      then (w, err (message (codes "winrs: shell is closed")))
      else if is_empty executable
      then (w, err (message (codes "winrs: invalid executable")))
      else started (command executable arguments w)

  sent : World × Option GoError → World × Option GoError
  sent (w, none) = (w, none)
  sent (w, some e) = (w, some (wrap (codes "winrs: send input: ") e))

  unfoldable pub send_input : Process → Text → World → World × Option GoError
  unfolding sent
  send_input p input w =
      if p.done
      then (w, some (message (codes "winrs: process already completed")))
      else sent (send p.command_id input w)

  deleted : World × Option GoError → Bool × World × Option GoError
  deleted (w, none) = (true, w, none)
  deleted (w, some e) = (true, w, some (wrap (codes "winrs: close shell: ") e))

  unfoldable pub close : Bool → World → Bool × World × Option GoError
  unfolding deleted
  close closed w = if closed then (true, w, none) else deleted (delete w)
