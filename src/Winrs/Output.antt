-- ===== src/Winrs/Output.antt =====
-- winrs/process.go: what Wait collects.
use mathlib.Core.List.{append_assoc}
use go_psrp.Common.{
  ℕ, suc, ap, ◌∙◌, ◌≡◌, true, false, none, some, List, [], ◌∷◌, ◌++◌, length, arith,
}
use go_psrp.Common.Int.{ℤ}
use go_psrp.Common.State.{ok}
use go_psrp.Common.Text.{Text}
use go_psrp.Winrs.{
  Transport, ReceiveResult, Process, add_result, received, receiving, wait, Waiting,
}

abbrev pub joined : (ReceiveResult → Text) → ReceiveResult → List ReceiveResult → Text
joined part r [] = part r
joined part r (s ∷ rs) = part r ++ joined part s rs

abbrev pub last_exit : ReceiveResult → List ReceiveResult → ℤ
last_exit r [] = r.exit_code
last_exit r (s ∷ rs) = last_exit s rs

-- The process that is done, with these answers after what it had.
abbrev pub collected : ReceiveResult → List ReceiveResult → Process → Process
collected r rs p = record p {
  stdout = p.stdout ++ joined (λ s. s.stdout) r rs;
  stderr = p.stderr ++ joined (λ s. s.stderr) r rs;
  exit_code = last_exit r rs;
  done = true;
}

collected-add_result :
    (r s : ReceiveResult) (rs : List ReceiveResult) (p : Process)
    → collected s rs (add_result r p) ≡ collected r (s ∷ rs) p
unfolding add_result
collected-add_result r s rs p = grind (
  arith,
  append_assoc p.stdout r.stdout (joined (λ x. x.stdout) s rs),
  append_assoc p.stderr r.stderr (joined (λ x. x.stderr) s rs),
)

module _ (transport : Transport) where
  open transport use {World, receive, ended}

  -- The answers to Receive from this world on: the last one only says done, and the context lasts.
  abbrev pub Answers : Text → World → ReceiveResult → List ReceiveResult → Type 0
  Answers id w r [] = ((receive id w).1 ≡ ok r) × (r.done ≡ true)
  Answers id w r (s ∷ rs) =
      ((receive id w).1 ≡ ok r)
      × ((r.done ≡ false) × ((ended (receive id w).0 ≡ none) × Answers id (receive id w).0 s rs))

  one_round :
      (fuel : ℕ) (r : ReceiveResult) (w : World) (p : Process)
      → (receive p.command_id w).1 ≡ ok r
      → r.done ≡ false
      → ended (receive p.command_id w).0 ≡ none
      → receiving transport (suc fuel) w p
        ≡ receiving transport fuel (receive p.command_id w).0 (add_result r p)
  unfolding receiving received
  one_round fuel r w p a d e = grind (arith, a, d, e)

  receiving-collected :
      (r : ReceiveResult) (rs : List ReceiveResult) (w : World) (p : Process)
      → Answers p.command_id w r rs
      → ((receiving transport (suc (length rs)) w p).1 ≡ collected r rs p)
        × ((receiving transport (suc (length rs)) w p).2 ≡ some (ok tt))
  unfolding receiving received add_result
  receiving-collected r [] w p (a, d) = grind (arith, a, d)
  receiving-collected r (s ∷ rs) w p (a, (d, (e, more))) =
      let step = one_round (suc (length rs)) r w p a d e in
      let rest = receiving-collected s rs (receive p.command_id w).0 (add_result r p) more in
      (
        ap (λ (x : Waiting transport). x.1) step ∙ rest.0 ∙ collected-add_result r s rs p,
        ap (λ (x : Waiting transport). x.2) step ∙ rest.1,
      )

  -- When the answers to Receive come to one that says done and the context lasts, Wait on a process
  -- that is not done succeeds, within a round for each answer: the process is done, with the outputs
  -- in the order of the answers and the exit code of the last; and another Wait returns at once.
  pub wait_collects :
      (r : ReceiveResult) (rs : List ReceiveResult) (w : World) (p : Process)
      → p.done ≡ false
      → Answers p.command_id w r rs
      → ((wait transport (suc (length rs)) w p).1 ≡ collected r rs p)
        × (((wait transport (suc (length rs)) w p).2 ≡ some (ok tt))
            × ((v : World)
                → wait transport 0 v (collected r rs p) ≡ (v, collected r rs p, some (ok tt))))
  unfolding wait
  wait_collects r rs w p e a =
      let all = receiving-collected r rs w p a in
      (grind (arith, e, all), (grind (arith, e, all), λ v. grind arith))
