-- ===== src/Notification/Delivery/Tests.antt =====
-- Deliveries of one event: the provider fails, then takes the email; then Kafka delivers again.
use nexus_commerce.Base.{◌≡◌, refl, true, none, some, [], ◌∷◌, ok, err}
use nexus_commerce.Notification.Delivery.{sent, NotificationLog, World, Faults, Delivery}
use nexus_commerce.Notification.Delivery.Redelivery.{deliver_all, Once, deliver_all-Once}

abbrev calm : Faults
calm = record {
  create = none;
  find = none;
  mark_sent = none;
  limited_mark_failed = none;
  limited_dlq = none;
  mark_failed = none;
  dlq = none;
  publish = none;
}

abbrev good : Delivery
good = record {
  is_handled = true;
  rate_limit = none;
  rendered = ok "<p>";
  sending = ok "m1";
  taken = 1;
}

abbrev bad : Delivery
bad = record good { sending = err "provider down"; taken = 0 }

abbrev start : World
start = record { log = none; emails = 0; dead_letters = 0 }

abbrev done_log : NotificationLog
done_log = record {
  id = "n1";
  status = sent;
  attempt_count = 1;
  max_retries = 3;
  last_error = none;
  provider_message_id = some "m1";
}

abbrev done_world : World
done_world = record { log = some done_log; emails = 1; dead_letters = 0 }

deliver_all-Once_example :
    let w = deliver_all "n1" ((calm, bad) ∷ (calm, good) ∷ (calm, good) ∷ []) start in
    Once w.log w.emails
deliver_all-Once_example =
    deliver_all-Once "n1" ((calm, bad) ∷ (calm, good) ∷ (calm, good) ∷ []) start
      ((refl, refl), ((refl, refl), ((refl, refl), tt))) refl

-- The email left, the update that marks it SENT threw, and the redelivery sends it again.
sent_twice :
    (deliver_all "n1"
      ((record calm { mark_sent = some "db" }, good) ∷ (calm, good) ∷ [])
      start).emails
    ≡ 2
unfolding deliver_all nexus_commerce.Notification.Delivery.process_event
    nexus_commerce.Notification.Delivery.claim_notification
sent_twice = refl
