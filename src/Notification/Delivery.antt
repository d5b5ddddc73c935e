-- ===== src/Notification/Delivery.antt =====
-- services/notification-service/src: from a consumed event to its email, in idempotency/idempotency.ts,
-- services/notificationLog.ts, services/dlq.ts and services/notificationService.ts. The column eventId
-- of NotificationLog is unique, and every call concerns the one row of the event, by its eventId or
-- by its id: the state is that row, if there is one, with the emails that the provider took for the
-- event and the dead letters published for it. Each call of the database may throw: `Faults`.
pub mod Redelivery
mod Tests
use nexus_commerce.Base.{
  ℕ, ◌+◌, Bool, true, false, Option, none, some, String, Result, ok, err, leb, if◌then◌else◌,
}

pub data NotificationStatus : Type 0 where
  pending sent failed dlq : NotificationStatus

-- The columns that the code reads back, of the row of `NotificationLog`.
pub record NotificationLog : Type 0 where
  pub id : String
  pub status : NotificationStatus
  pub attempt_count : ℕ
  pub max_retries : ℕ
  pub last_error : Option String
  pub provider_message_id : Option String

pub record World : Type 0 where
  pub log : Option NotificationLog
  pub emails : ℕ
  pub dead_letters : ℕ

-- What each call throws, if it throws: the calls of `markAsFailed` and `routeToDlq` under the rate
-- limit stand inside the `try`, those of its `catch` after it.
pub record Faults : Type 0 where
  pub create : Option String
  pub find : Option String
  pub mark_sent : Option String
  pub limited_mark_failed : Option String
  pub limited_dlq : Option String
  pub mark_failed : Option String
  pub dlq : Option String
  -- of the publication of a dead letter, which only logs it
  pub publish : Option String

-- What an event meets on its way: whether its type is in the registry, the answer of the rate
-- limiter if there is one (`some` of the refusal's text if it refuses), the rendering, what the circuit
-- breaker around the retried sending gives, and how many emails the provider took during it: the sending
-- is tried again after a timeout, too, when the provider may have taken the email.
pub record Delivery : Type 0 where
  pub is_handled : Bool
  pub rate_limit : Option String
  pub rendered : Result String String
  pub sending : Result String String
  pub taken : ℕ

pub data ProcessEventResult : Type 0 where
  unhandled duplicate : ProcessEventResult
  sent_as : String → ProcessEventResult
  failed_with : String → String → Bool → ProcessEventResult
  threw : String → ProcessEventResult

pub data IdempotencyResult : Type 0 where
  claimed : String → IdempotencyResult
  is_duplicate : IdempotencyResult

-- The row that `claimNotification` inserts, with the id that the database gave.
abbrev pub new_log : String → NotificationLog
new_log id = record {
  id = id;
  status = pending;
  attempt_count = 0;
  max_retries = 3;
  last_error = none;
  provider_message_id = none;
}

abbrev pub claim_existing : NotificationStatus → String → IdempotencyResult
claim_existing sent id = is_duplicate
claim_existing dlq id = is_duplicate
claim_existing _ id = claimed id

-- The look-up of `claimNotification` after the unique constraint was violated, which may throw.
abbrev pub reclaim_as :
    Option String → NotificationStatus → String → Result String IdempotencyResult
reclaim_as (some e) status id = err e
reclaim_as none status id = ok (claim_existing status id)

-- `claimNotification`; an error of the insertion other than P2002 is thrown on.
abbrev pub claim_in :
    Option String
    → Option String
    → String
    → Option NotificationLog
    → World
    → World × Result String IdempotencyResult
claim_in (some e) find id log w = (w, err e)
claim_in none find id none w = (record w { log = some (new_log id) }, ok (claimed id))
claim_in none find id (some l) w = (w, reclaim_as find l.status l.id)

pub claim_notification : Faults → String → World → World × Result String IdempotencyResult
claim_notification f id w = claim_in f.create f.find id w.log w

-- The update of `markAsSent`
abbrev pub mark_sent_log : String → NotificationLog → NotificationLog
mark_sent_log message_id l = record l { status = sent; provider_message_id = some message_id }

-- The update of `markAsFailed`
abbrev pub mark_failed_log : String → NotificationLog → NotificationLog
mark_failed_log e l = record l {
  status = failed;
  last_error = some e;
  attempt_count = l.attempt_count + 1;
}

-- The update of `routeToDlq`
abbrev pub dlq_log : String → NotificationLog → NotificationLog
dlq_log e l = record l { status = dlq; last_error = some e }

abbrev pub published : Option String → ℕ → ℕ
published none n = n + 1
published (some e) n = n

-- `markAsFailed`, and `routeToDlq` if the attempts have reached the limit: the new state, with what
-- is thrown or whether the event went to the dead letters. The error recorded by either may differ.
abbrev pub dead_or_not :
    Bool
    → Option String
    → Option String
    → String
    → NotificationLog
    → World
    → World × Result String Bool
dead_or_not false bury publish reason l w = (record w { log = some l }, ok false)
dead_or_not true (some e) publish reason l w = (record w { log = some l }, err e)
dead_or_not true none publish reason l w = (
  record w { log = some (dlq_log reason l); dead_letters = published publish w.dead_letters },
  ok true,
)

abbrev pub fail_row :
    Option String
    → Option String
    → Option String
    → String
    → String
    → NotificationLog
    → World
    → World × Result String Bool
fail_row (some e) bury publish message reason l w = (w, err e)
fail_row none bury publish message reason l w =
    let l' = mark_failed_log message l in
    dead_or_not (leb l'.max_retries l'.attempt_count) bury publish reason l' w

-- The update of a row that is not there throws.
abbrev pub fail_log :
    Option String
    → Option String
    → Option String
    → String
    → String
    → Option NotificationLog
    → World
    → World × Result String Bool
fail_log mark bury publish message reason none w = (w, err "Record to update not found.")
fail_log mark bury publish message reason (some l) w = fail_row mark bury publish message reason l w

abbrev pub conclude : String → String → World × Result String Bool → World × ProcessEventResult
conclude id message (w, ok routed) = (w, failed_with id message routed)
conclude id message (w, err e) = (w, threw e)

-- The `catch` of `processEvent`
abbrev pub catch_error : Faults → String → String → World → World × ProcessEventResult
catch_error f id message w =
    conclude id message (fail_log f.mark_failed f.dlq f.publish message message w.log w)

-- The rate limit refused: an error of its updates goes to the `catch`.
abbrev pub conclude_limited :
    Faults → String → World × Result String Bool → World × ProcessEventResult
conclude_limited f id (w, ok routed) = (w, failed_with id "Rate limit exceeded" routed)
conclude_limited f id (w, err e) = catch_error f id e w

abbrev pub mark_as_sent :
    Faults
    → Option String
    → String
    → String
    → Option NotificationLog
    → World
    → World × ProcessEventResult
mark_as_sent f (some e) id message_id log w = catch_error f id e w
mark_as_sent f none id message_id none w = catch_error f id "Record to update not found." w
mark_as_sent f none id message_id (some l) w =
    (record w { log = some (mark_sent_log message_id l) }, sent_as id)

-- Step 6 on what the sending gave
abbrev pub after_sending :
    Faults → Result String String → String → World → World × ProcessEventResult
after_sending f (err e) id w = catch_error f id e w
after_sending f (ok message_id) id w = mark_as_sent f f.mark_sent id message_id w.log w

-- Steps 4 to 6; the emails that the provider took have left, whatever the sending gave.
abbrev pub send_email :
    Faults
    → Result String String
    → Result String String
    → ℕ
    → String
    → World
    → World × ProcessEventResult
send_email f (err e) sending taken id w = catch_error f id e w
send_email f (ok html) sending taken id w =
    after_sending f sending id (record w { emails = w.emails + taken })

-- The `try` of `processEvent`
abbrev pub deliver : Faults → Option String → Delivery → String → World → World × ProcessEventResult
deliver f none d id w = send_email f d.rendered d.sending d.taken id w
deliver f (some message) d id w = conclude_limited f id (
    fail_log f.limited_mark_failed f.limited_dlq f.publish message
      "Rate limit exceeded — max retries exhausted" w.log w)

abbrev pub after_claim :
    Faults → Delivery → World × Result String IdempotencyResult → World × ProcessEventResult
after_claim f d (w, err e) = (w, threw e)
after_claim f d (w, ok is_duplicate) = (w, duplicate)
after_claim f d (w, ok (claimed id)) = deliver f d.rate_limit d id w

-- `processEvent`, with the id that an insertion would be given
pub process_event : Faults → String → Delivery → World → World × ProcessEventResult
process_event f id d w =
    if d.is_handled then after_claim f d (claim_notification f id w) else (w, unhandled)
