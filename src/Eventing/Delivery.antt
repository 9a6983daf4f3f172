-- ===== src/Eventing/Delivery.antt =====
-- client/eventing.go: what the consumer of a subscription receives of what the loop pulls.
use go_psrp.Common.{
  ◌<◌, ◌≤◌, ◌≡◌, ap, sym, subst, ◌∙◌, ◌⊎◌, inl, inr, Bool, List, [], ◌∷◌, ◌++◌, ltb, length,
  Bool-cases, arith, length-append,
}
use mathlib.Core.List.{append_assoc}
use go_psrp.Common.Text.{Text, codes, contains}
use go_psrp.Common.State.{Result, ok, err}
use go_psrp.Common.Errors.{GoError, Sentinel, wrap, message, error_text}
use go_psrp.Eventing.{
  Polling, PullResponse, events_capacity, errors_capacity, report, emit, emit_items, continue_at,
  end_at, polled,
}

-- A list split in two, both parts in its order.
pub data Split : List Text → List Text → List Text → Type 0 where
  nothing : Split [] [] []
  kept : {k d o : List Text} → (x : Text) → Split k d o → Split (k ++ (x ∷ [])) d (o ++ (x ∷ []))
  missed : {k d o : List Text} → (x : Text) → Split k d o → Split k (d ++ (x ∷ [])) (o ++ (x ∷ []))

abbrev pub add_items : Text → List Text → List Text
add_items [] before = before
add_items (b ∷ raw) before = before ++ ((b ∷ raw) ∷ [])

abbrev pub add_answer : Result GoError PullResponse → List Text → List Text
add_answer (err e) before = before
add_answer (ok r) before = add_items r.items before

-- What was received and what the channel still holds are all that was pulled but some of it, in the
-- order in which it was pulled; nothing is missing while no more than the channel's capacity was
-- pulled. The channels hold no more than they can.
pub record Delivers (received before : List Text) (p : Polling) : Type 0 where
  pub missing : List Text
  pub split : Split (received ++ p.events) missing before
  pub bounded : length p.events ≤ events_capacity
  pub few_errors : length p.errors ≤ errors_capacity
  pub shorter : length p.events ≤ length before
  pub nothing_missed : (missing ≡ []) ⊎ (events_capacity < length before)

report-errors :
    (e : GoError) (p : Polling)
    → length p.errors ≤ errors_capacity
    → length (report e p).errors ≤ errors_capacity
unfolding report
report-errors e p l = elim (Bool-cases (ltb (length p.errors) errors_capacity)) [
  | inl less ↦ grind (arith, less, l, length-append)
  | inr more ↦ grind (arith, more, l)
]

report-events : (e : GoError) (p : Polling) → (report e p).events ≡ p.events
unfolding report
report-events e p = ground arith

report-Delivers :
    (received before : List Text) (e : GoError) (p : Polling)
    → Delivers received before p
    → Delivers received before (report e p)
report-Delivers received before e p d =
    let same = report-events e p in
    record {
      missing = d.missing;
      split = subst (λ es. Split (received ++ es) d.missing before) (sym same) d.split;
      bounded = subst (λ es. length es ≤ events_capacity) (sym same) d.bounded;
      few_errors = report-errors e p d.few_errors;
      shorter = subst (λ es. length es ≤ length before) (sym same) d.shorter;
      nothing_missed = d.nothing_missed;
    }

-- The same channels after a change of the rest of the loop's state.
pub keep-Delivers :
    (received before : List Text) (p q : Polling)
    → q.events ≡ p.events
    → q.errors ≡ p.errors
    → Delivers received before p
    → Delivers received before q
keep-Delivers received before p q same same_errors d = record {
  missing = d.missing;
  split = subst (λ es. Split (received ++ es) d.missing before) (sym same) d.split;
  bounded = subst (λ es. length es ≤ events_capacity) (sym same) d.bounded;
  few_errors = subst (λ es. length es ≤ errors_capacity) (sym same_errors) d.few_errors;
  shorter = subst (λ es. length es ≤ length before) (sym same) d.shorter;
  nothing_missed = d.nothing_missed;
}

send-Delivers :
    (received before : List Text) (raw : Text) (p : Polling)
    → length p.events < events_capacity
    → Delivers received before p
    → Delivers received (before ++ (raw ∷ [])) (record p { events = p.events ++ (raw ∷ []) })
send-Delivers received before raw p less d = record {
  missing = d.missing;
  split =
      subst (λ ks. Split ks d.missing (before ++ (raw ∷ [])))
        (append_assoc received p.events (raw ∷ [])) (kept raw d.split);
  bounded = grind (arith, less, length-append);
  few_errors = d.few_errors;
  shorter =
      omega (arith, d.shorter, length-append p.events (raw ∷ []), length-append before (raw ∷ []));
  nothing_missed = elim d.nothing_missed [
    | inl nothing_missing ↦ inl nothing_missing
    | inr many ↦ inr (omega (arith, many, length-append before (raw ∷ [])))
  ];
}

drop-Delivers :
    (received before : List Text) (raw : Text) (p : Polling)
    → length p.events ≡ events_capacity
    → Delivers received before p
    → Delivers received (before ++ (raw ∷ [])) p
drop-Delivers received before raw p full d = record {
  missing = d.missing ++ (raw ∷ []);
  split = missed raw d.split;
  bounded = d.bounded;
  few_errors = d.few_errors;
  shorter = omega (arith, d.shorter, length-append before (raw ∷ []));
  nothing_missed = inr (omega (arith, d.shorter, full, length-append before (raw ∷ [])));
}

emit-Delivers :
    (received before : List Text) (raw : Text) (p : Polling)
    → Delivers received before p
    → Delivers received (before ++ (raw ∷ [])) (emit raw p)
unfolding emit
emit-Delivers received before raw p d = elim (Bool-cases (ltb (length p.events) events_capacity)) [
  | inl less ↦ rw less (send-Delivers received before raw p (ground (arith, less)) d)
  | inr more ↦ rw more (
      report-Delivers received (before ++ (raw ∷ []))
        (message (codes "event buffer full, dropping events")) p
        (drop-Delivers received before raw p (ground (arith, more, d.bounded)) d))
]

emit_items-Delivers :
    (received before : List Text) (raw : Text) (p : Polling)
    → Delivers received before p
    → Delivers received (add_items raw before) (emit_items raw p)
unfolding emit_items
emit_items-Delivers received before [] p d = d
emit_items-Delivers received before (b ∷ raw) p d = emit-Delivers received before (b ∷ raw) p d

continue_at-Delivers :
    (received before : List Text) (context : Text) (p : Polling)
    → Delivers received before p
    → Delivers received before (continue_at context p)
unfolding continue_at
continue_at-Delivers received before context p d =
    keep-Delivers received before p (continue_at context p) (ground arith) (ground arith) d

end_at-Delivers :
    (received before : List Text) (over : Bool) (p : Polling)
    → Delivers received before p
    → Delivers received before (end_at over p)
unfolding end_at
end_at-Delivers received before over p d =
    keep-Delivers received before p (end_at over p) (ground arith) (ground arith) d

pub polled-Delivers :
    (text : Sentinel → Text) (received before : List Text) (r : Result GoError PullResponse)
    (p : Polling)
    → Delivers received before p
    → Delivers received (add_answer r before) (polled text r p)
unfolding polled
polled-Delivers text received before (err e) p d =
    end_at-Delivers received before
      (contains (error_text text e) (codes "InvalidEnumerationContext"))
      (report (wrap (codes "pull error: ") e) p)
      (report-Delivers received before (wrap (codes "pull error: ") e) p d)
polled-Delivers text received before (ok r) p d =
    end_at-Delivers received (add_items r.items before) r.end_of_sequence
      (emit_items r.items (continue_at r.enumeration_context p))
      (emit_items-Delivers received before r.items (continue_at r.enumeration_context p)
        (continue_at-Delivers received before r.enumeration_context p d))

pub receive-Delivers :
    (received before : List Text) (raw : Text) (rest : List Text) (p : Polling)
    → p.events ≡ raw ∷ rest
    → Delivers received before p
    → Delivers (received ++ (raw ∷ [])) before (record p { events = rest })
receive-Delivers received before raw rest p e d = record {
  missing = d.missing;
  split =
      subst (λ ks. Split ks d.missing before)
        (ap (λ es. received ++ es) e ∙ sym (append_assoc received (raw ∷ []) rest)) d.split;
  bounded = omega (arith, d.bounded, ap (λ (es : List Text). length es) e);
  few_errors = d.few_errors;
  shorter = omega (arith, d.shorter, ap (λ (es : List Text). length es) e);
  nothing_missed = d.nothing_missed;
}
