-- ===== src/Notification/Delivery/Redelivery.antt =====
-- An event that Kafka delivers again and again.
use nexus_commerce.Base.{
  ℕ, ◌+◌, ◌≡◌, sym, ap, refl, ◌∙◌, Bool, true, false, Option, none, some, String, List, [], ◌∷◌,
  Result, ok, err, leb, All, arith, if◌then◌else◌,
}
use mathlib.Core.Path.{subst}
use nexus_commerce.Notification.Delivery.{
  dlq_log, reclaim_as, unhandled, NotificationStatus, pending, sent, failed, dlq, NotificationLog,
  World, Faults, Delivery, new_log, claim_in, claim_notification, mark_failed_log, dead_or_not,
  fail_log, conclude, catch_error, conclude_limited, mark_as_sent, after_sending, send_email,
  deliver, after_claim, process_event,
}

-- The deliveries of one event, one after another, with the id that an insertion would be given.
unfoldable pub deliver_all : String → List (Faults × Delivery) → World → World
deliver_all id [] w = w
deliver_all id ((f, d) ∷ ds) w = deliver_all id ds (process_event f id d w).0

-- One email when the row is SENT, none in every other state.
abbrev pub OnceIn : NotificationStatus → ℕ → Type 0
OnceIn sent n = n ≡ 1
OnceIn _ n = n ≡ 0

abbrev pub Once : Option NotificationLog → ℕ → Type 0
Once none n = n ≡ 0
Once (some l) n = OnceIn l.status n

-- A sending that returned sent one email, one that threw none.
abbrev pub IsExact : Result String String → ℕ → Type 0
IsExact (ok message_id) taken = taken ≡ 1
IsExact (err e) taken = taken ≡ 0

abbrev is_sent : NotificationStatus → Bool
is_sent sent = true
is_sent _ = false

-- The email has not left, and the row is there and not SENT.
abbrev IsOpen : World → Type 0
IsOpen w =
    (l : NotificationLog) × ((w.log ≡ some l) × ((is_sent l.status ≡ false) × (w.emails ≡ 0)))

OnceIn-is_sent : (st : NotificationStatus) (n : ℕ) → is_sent st ≡ false → n ≡ 0 → OnceIn st n
OnceIn-is_sent pending n open' unsent = unsent
OnceIn-is_sent failed n open' unsent = unsent
OnceIn-is_sent dlq n open' unsent = unsent
OnceIn-is_sent sent n open' unsent = absurd (let e : Unit {0} ≡ ⊥ = cc in rw (← e) tt)

IsOpen-Once : (w : World) → IsOpen w → Once w.log w.emails
IsOpen-Once w (l, (here, (open', unsent))) =
    subst (λ o. Once o w.emails) (sym here) (OnceIn-is_sent l.status w.emails open' unsent)

dead_or_not-IsOpen :
    (last : Bool) (bury publish : Option String) (reason : String) (l : NotificationLog) (w : World)
    → is_sent l.status ≡ false
    → w.emails ≡ 0
    → IsOpen (dead_or_not last bury publish reason l w).0
dead_or_not-IsOpen false bury publish reason l w open' unsent = (l, (refl, (open', unsent)))
dead_or_not-IsOpen true (some e) publish reason l w open' unsent = (l, (refl, (open', unsent)))
dead_or_not-IsOpen true none publish reason l w open' unsent =
    (dlq_log reason l, (refl, (refl, unsent)))

fail_log-IsOpen :
    (mark bury publish : Option String) (message reason : String) (w : World)
    → IsOpen w
    → IsOpen (fail_log mark bury publish message reason w.log w).0
fail_log-IsOpen (some e) bury publish message reason w (l, (here, (open', unsent))) =
    subst (λ o. IsOpen (fail_log (some e) bury publish message reason o w).0) (sym here)
      (l, (here, (open', unsent)))
fail_log-IsOpen none bury publish message reason w (l, (here, (open', unsent))) =
    let l' = mark_failed_log message l in
    subst (λ o. IsOpen (fail_log none bury publish message reason o w).0) (sym here)
      (dead_or_not-IsOpen (leb l'.max_retries l'.attempt_count) bury publish reason l' w refl
        unsent)

conclude-IsOpen :
    (id message : String) (r : World × Result String Bool)
    → IsOpen r.0
    → IsOpen (conclude id message r).0
conclude-IsOpen id message (w, ok routed) h = h
conclude-IsOpen id message (w, err e) h = h

catch_error-IsOpen :
    (f : Faults) (id message : String) (w : World)
    → IsOpen w
    → IsOpen (catch_error f id message w).0
catch_error-IsOpen f id message w h =
    conclude-IsOpen id message (fail_log f.mark_failed f.dlq f.publish message message w.log w)
      (fail_log-IsOpen f.mark_failed f.dlq f.publish message message w h)

conclude_limited-IsOpen :
    (f : Faults) (id : String) (r : World × Result String Bool)
    → IsOpen r.0
    → IsOpen (conclude_limited f id r).0
conclude_limited-IsOpen f id (w, ok routed) h = h
conclude_limited-IsOpen f id (w, err e) h = catch_error-IsOpen f id e w h

after_sending-Once :
    (f : Faults) (sending : Result String String) (taken : ℕ) (id : String) (w : World)
    → f.mark_sent ≡ none
    → IsExact sending taken
    → IsOpen w
    → let w' = (after_sending f sending id (record w { emails = w.emails + taken })).0 in
      Once w'.log w'.emails
after_sending-Once f (err e) taken id w marked exact (l, (here, (open', unsent))) =
    let w₁ : World = record w { emails = w.emails + taken } in
    IsOpen-Once (catch_error f id e w₁).0
      (catch_error-IsOpen f id e w₁ (l, (here, (open', omega (arith, unsent, exact)))))
after_sending-Once f (ok m) taken id w marked exact (l, (here, (open', unsent))) =
    let w₁ : World = record w { emails = w.emails + taken } in
    subst (λ o. let w' = (mark_as_sent f o id m w.log w₁).0 in Once w'.log w'.emails) (sym marked)
      (subst (λ o. let w' = (mark_as_sent f none id m o w₁).0 in Once w'.log w'.emails) (sym here)
        (omega (arith, unsent, exact)))

send_email-Once :
    (f : Faults) (rendered sending : Result String String) (taken : ℕ) (id : String) (w : World)
    → f.mark_sent ≡ none
    → IsExact sending taken
    → IsOpen w
    → let w' = (send_email f rendered sending taken id w).0 in Once w'.log w'.emails
send_email-Once f (err e) sending taken id w marked exact h =
    IsOpen-Once (catch_error f id e w).0 (catch_error-IsOpen f id e w h)
send_email-Once f (ok html) sending taken id w marked exact h =
    after_sending-Once f sending taken id w marked exact h

deliver-Once :
    (f : Faults) (limit : Option String) (d : Delivery) (id : String) (w : World)
    → f.mark_sent ≡ none
    → IsExact d.sending d.taken
    → IsOpen w
    → let w' = (deliver f limit d id w).0 in Once w'.log w'.emails
deliver-Once f none d id w marked exact h =
    send_email-Once f d.rendered d.sending d.taken id w marked exact h
deliver-Once f (some m) d id w marked exact h =
    let reason : String = "Rate limit exceeded — max retries exhausted" in
    let r = fail_log f.limited_mark_failed f.limited_dlq f.publish m reason w.log w in
    IsOpen-Once (conclude_limited f id r).0 (
      conclude_limited-IsOpen f id r
        (fail_log-IsOpen f.limited_mark_failed f.limited_dlq f.publish m reason w h))

Once-kept :
    (l : NotificationLog) (st : NotificationStatus) (w : World)
    → w.log ≡ some l
    → l.status ≡ st
    → OnceIn st w.emails
    → Once w.log w.emails
Once-kept l st w here status once =
    subst (λ o. Once o w.emails) (sym here) (subst (λ s. OnceIn s w.emails) (sym status) once)

-- A row that is there: reclaimed, or a duplicate that changes nothing.
existing-Once :
    (f : Faults) (d : Delivery) (find : Option String) (l : NotificationLog)
    (st : NotificationStatus) (w : World)
    → f.mark_sent ≡ none
    → IsExact d.sending d.taken
    → w.log ≡ some l
    → l.status ≡ st
    → OnceIn st w.emails
    → let w' = (after_claim f d (w, reclaim_as find st l.id)).0 in Once w'.log w'.emails
existing-Once f d (some e) l st w marked exact here status once = Once-kept l st w here status once
existing-Once f d none l sent w marked exact here status once = Once-kept l sent w here status once
existing-Once f d none l dlq w marked exact here status once = Once-kept l dlq w here status once
existing-Once f d none l pending w marked exact here status once =
    deliver-Once f d.rate_limit d l.id w marked exact (l, (here, (ap is_sent status, once)))
existing-Once f d none l failed w marked exact here status once =
    deliver-Once f d.rate_limit d l.id w marked exact (l, (here, (ap is_sent status, once)))

claim-Once :
    (f : Faults) (d : Delivery) (id : String) (create : Option String)
    (log : Option NotificationLog) (w : World)
    → f.mark_sent ≡ none
    → IsExact d.sending d.taken
    → w.log ≡ log
    → Once log w.emails
    → let w' = (after_claim f d (claim_in create f.find id log w)).0 in Once w'.log w'.emails
claim-Once f d id (some e) log w marked exact here once =
    subst (λ o. Once o w.emails) (sym here) once
claim-Once f d id none none w marked exact here once =
    let w₁ : World = record w { log = some (new_log id) } in
    deliver-Once f d.rate_limit d id w₁ marked exact (new_log id, (refl, (refl, once)))
claim-Once f d id none (some l) w marked exact here once =
    existing-Once f d f.find l l.status w marked exact here refl once

process_event-Once :
    (f : Faults) (id : String) (d : Delivery) (w : World)
    → f.mark_sent ≡ none
    → IsExact d.sending d.taken
    → Once w.log w.emails
    → let w' = (process_event f id d w).0 in Once w'.log w'.emails
unfolding process_event claim_notification
process_event-Once f id d w marked exact once =
    elim d.is_handled
      as (λ b.
        let w' = (if b then after_claim f d (claim_notification f id w) else (w, unhandled)).0 in
        Once w'.log w'.emails) [
          | true ↦ claim-Once f d id f.create w.log w marked exact refl once
          | false ↦ once
        ]

-- If exactly one email has left for an event whose row is SENT, and none for one whose row is not
-- or is not there yet, then that is still so after any further deliveries, one after another, whatever
-- throws in them except the update that marks the row SENT: if the provider takes one email in a sending
-- that returns, with all its retries, and none in one that throws.
pub deliver_all-Once :
    (id : String) (ds : List (Faults × Delivery)) (w : World)
    → All (λ p. (p.0.mark_sent ≡ none) × IsExact p.1.sending p.1.taken) ds
    → Once w.log w.emails
    → let w' = deliver_all id ds w in Once w'.log w'.emails
unfolding deliver_all
deliver_all-Once id [] w calm once = once
deliver_all-Once id ((f, d) ∷ ds) w calm once =
    deliver_all-Once id ds (process_event f id d w).0 calm.1
      (process_event-Once f id d w calm.0.0 calm.0.1 once)

-- SENT or DLQ
abbrev pub is_terminal : NotificationStatus → Bool
is_terminal sent = true
is_terminal dlq = true
is_terminal _ = false

terminal-reclaim :
    (f : Faults) (d : Delivery) (find : Option String) (st : NotificationStatus) (id : String)
    (w : World)
    → is_terminal st ≡ true
    → (after_claim f d (w, reclaim_as find st id)).0 ≡ w
terminal-reclaim f d (some e) st id w over = refl
terminal-reclaim f d none sent id w over = refl
terminal-reclaim f d none dlq id w over = refl
terminal-reclaim f d none pending id w over = absurd (let e : Unit {0} ≡ ⊥ = cc in rw (← e) tt)
terminal-reclaim f d none failed id w over = absurd (let e : Unit {0} ≡ ⊥ = cc in rw (← e) tt)

terminal-claim :
    (f : Faults) (d : Delivery) (id : String) (create : Option String) (l : NotificationLog)
    (w : World)
    → is_terminal l.status ≡ true
    → (after_claim f d (claim_in create f.find id (some l) w)).0 ≡ w
terminal-claim f d id (some e) l w over = refl
terminal-claim f d id none l w over = terminal-reclaim f d f.find l.status l.id w over

process_event-terminal :
    (f : Faults) (id : String) (d : Delivery) (l : NotificationLog) (w : World)
    → w.log ≡ some l
    → is_terminal l.status ≡ true
    → (process_event f id d w).0 ≡ w
unfolding process_event claim_notification
process_event-terminal f id d l w here over =
    elim d.is_handled
      as (λ b. (if b then after_claim f d (claim_notification f id w) else (w, unhandled)).0 ≡ w) [
        | true ↦
            subst (λ o. (after_claim f d (claim_in f.create f.find id o w)).0 ≡ w) (sym here)
              (terminal-claim f d id f.create l w over)
        | false ↦ refl
      ]

-- Once the row of an event is SENT or DLQ, no further delivery of it changes anything, whatever
-- throws: no email, no dead letter, and the row stays as it is.
pub deliver_all-terminal :
    (id : String) (ds : List (Faults × Delivery)) (l : NotificationLog) (w : World)
    → w.log ≡ some l
    → is_terminal l.status ≡ true
    → deliver_all id ds w ≡ w
unfolding deliver_all
deliver_all-terminal id [] l w here over = refl
deliver_all-terminal id ((f, d) ∷ ds) l w here over =
    ap (deliver_all id ds) (process_event-terminal f id d l w here over)
    ∙ deliver_all-terminal id ds l w here over
