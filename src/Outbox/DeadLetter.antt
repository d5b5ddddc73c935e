-- ===== src/Outbox/DeadLetter.antt =====
-- packages/kafka/src/deadLetter.ts.
use nexus_commerce.Base.{Option, none, some, String}
use nexus_commerce.Events.{Json, Fields, null, str, obj, end, field, dlq_topic, dead_letter_event}
use nexus_commerce.Outbox.Row.{Message}
use Prim.Native.String.{◌++◌ as ◌+++◌}

pub data FailureStage : Type 0 where
  publish_stage consume_stage : FailureStage

abbrev pub stage_text : FailureStage → String
stage_text publish_stage = "publish"
stage_text consume_stage = "consume"

pub record DeadLetterPublishParams : Type 0 where
  pub service_name : String
  pub event_id : String
  pub event_type : Option String
  pub failure_stage : Option FailureStage
  pub error_message : String
  pub raw_payload : Option String
  pub traceparent : Option String
  pub correlation_id : Option String

-- `...(v !== undefined ? { key: v } : {})`
abbrev pub optional_field : String → Option String → Fields → Fields
optional_field key none rest = rest
optional_field key (some v) rest = field key (str v) rest

abbrev pub nullable : Option String → Json
nullable none = null
nullable (some s) = str s

-- `params.failureStage ?? "publish"`
abbrev pub stage_or_publish : Option FailureStage → FailureStage
stage_or_publish none = publish_stage
stage_or_publish (some s) = s

-- The message that `publishDeadLetterEvent` publishes; `now` is the text of the time.
pub dead_letter_message : DeadLetterPublishParams → String → Message
dead_letter_message p now = record {
  topic = dlq_topic;
  key = ◌+++◌ "dlq-" p.event_id;
  value = obj (
      field "eventType" (str dead_letter_event) (
        field "aggregateId" (str p.event_id) (
          field "payload"
            (obj (
              field "sourceService" (str p.service_name) (
                field "originalEventId" (str p.event_id) (
                  field "originalEventType" (nullable p.event_type) (
                    field "failureStage" (str (stage_text (stage_or_publish p.failure_stage))) (
                      field "error" (str p.error_message) (
                        optional_field "rawPayload" p.raw_payload
                          (field "failedAt" (str now) end))))))))
            (optional_field "traceparent" p.traceparent
              (optional_field "correlationId" p.correlation_id end)))));
  traceparent = none;
}
