-- ===== src/Winrs/Examples.antt =====
-- winrs/process.go: a process with two answers.
use go_psrp.Common.{◌≡◌, refl, true, false, none, some, List, [], ◌∷◌}
use go_psrp.Common.Int.{pos}
use go_psrp.Common.State.{Result, ok, err}
use go_psrp.Common.Text.{codes}
use go_psrp.Common.Errors.{GoError, sentinel, eof}
use go_psrp.Winrs.{Transport, ReceiveResult, Process, new_process, start, wait, add_result}
use go_psrp.Winrs.Output.{collected, wait_collects}

abbrev first : ReceiveResult
first = record { stdout = codes "ab"; stderr = []; exit_code = pos 0; done = false }

abbrev second : ReceiveResult
second = record { stdout = codes "c"; stderr = codes "!"; exit_code = pos 3; done = true }

abbrev next : List ReceiveResult → List ReceiveResult × Result GoError ReceiveResult
next [] = ([], err (sentinel eof))
next (r ∷ rs) = (rs, ok r)

abbrev scripted : Transport
scripted = record {
  World = List ReceiveResult;
  delete = λ w. (w, none);
  command = λ executable arguments w. (w, ok (codes "id"));
  receive = λ id. next;
  send = λ id input w. (w, none);
  ended = λ w. none;
}

abbrev process : Process
process = record {
  command_id = codes "id";
  stdout = [];
  stderr = [];
  exit_code = pos 0;
  done = false;
}

starts : start scripted false (codes "cmd") [] [] ≡ ([], ok process)
unfolding start new_process
starts = refl

collects : wait scripted 5 (first ∷ second ∷ []) process ≡ (
  [],
  record {
    command_id = codes "id";
    stdout = codes "abc";
    stderr = codes "!";
    exit_code = pos 3;
    done = true;
  },
  some (ok tt),
)
unfolding wait add_result
collects = refl

wait_collects_example :
    ((wait scripted 2 (first ∷ second ∷ []) process).1 ≡ collected first (second ∷ []) process)
    × (((wait scripted 2 (first ∷ second ∷ []) process).2 ≡ some (ok tt))
        × ((v : List ReceiveResult)
            → wait scripted 0 v (collected first (second ∷ []) process)
              ≡ (v, collected first (second ∷ []) process, some (ok tt))))
wait_collects_example =
    wait_collects scripted first (second ∷ []) (first ∷ second ∷ []) process refl
      (refl, (refl, (refl, (refl, refl))))
