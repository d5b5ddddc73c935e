-- ===== src/Events.antt =====
-- packages/event-contracts/src: the names on the wire and the JSON values that carry events.
use nexus_commerce.Base.{String, Bool}

-- A number is kept as its text.
mutual
  pub data Json : Type 0 where
    null : Json
    bool : Bool → Json
    num : String → Json
    str : String → Json
    arr : Items → Json
    obj : Fields → Json

  pub data Items : Type 0 where
    nil : Items
    cons : Json → Items → Items

  pub data Fields : Type 0 where
    end : Fields
    field : String → Json → Fields → Fields

-- `KafkaTopics`
abbrev pub domain_events_topic : String
domain_events_topic = "domain-events"

abbrev pub dlq_topic : String
dlq_topic = "dead-letter-queue"

-- DLQEventTypes
abbrev pub dead_letter_event : String
dead_letter_event = "dead_letter.event"
