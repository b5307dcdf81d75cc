-- ===== src/Sender/Examples.antt =====
-- Sends of internal/worker and internal/circuitbreaker with services whose clock ticks with each request
-- to SES: SES is down, SNS and the webhooks' server answer.
use nimbus_app.Prelude.{
  ◌+◌, ◌⊎◌, ℕ, ◌≤◌, ◌≡◌, ◌↔◌, refl, String, true, none, some, List, [], ◌∷◌, arith, str_eq,
  Bool-cases, inl, inr,
}
use nimbus_app.Prelude.Int.{pos}
use nimbus_app.Breaker.{allow, record_failure, Config, new}
use nimbus_app.Breaker.Invariant.{FitsInt64}
use nimbus_app.Db.{Notification, channel_email, channel_sms, channel_webhook, status_processing}
use nimbus_app.Sender.{
  parsed, response, no_text, SendError, no_sender, failed, Providers, World, Sender, fails,
  multi_sender,
}
use nimbus_app.Sender.Channel.{ses_sender, sns_sender}
use nimbus_app.Sender.Webhook.{webhook_sender, set_headers, set_header}
use nimbus_app.Sender.Protected.{protected_send}
use nimbus_app.Sender.Wiring.{
  ses_breaker, sns_breaker, webhook_breaker, breaker_config, gateway_breakers, gateway_sender,
}
use nimbus_app.Sender.Laws.{routes_to_first, webhook_succeeds_iff, DeliversWebhook}
use nimbus_app.Sender.Outage.{IsDown, send_all, outage_is_contained}
use nimbus_app.Sender.Isolation.{channels_isolated}

abbrev pub services : Providers
services = record {
  Env = ℕ;
  clock = λ t. t;
  parse_email = λ s. parsed (record { to = "a@b.c"; subject = "Hi"; body = s });
  parse_sms = λ s. parsed (record { phone_number = "+1"; message = s });
  parse_webhook = λ s. parsed (record {
    url = "https://example.com";
    method = "";
    headers = [];
    body = s;
    timeout = pos 0;
  });
  send_email = λ from p t. (some "unavailable", t + 1);
  publish = λ p t. (none, t);
  new_request = λ m u. none;
  canonical = λ k. k;
  http_do = λ r t. (response 204 "", t);
  parse_template = λ s. none;
  generate_text = λ s u t. (no_text "off", t);
  email_json = λ p. p.body;
  uuid_string = λ i. "id";
  decimal = λ n. "n";
}

abbrev pub world : World services
world = record { breakers = gateway_breakers 0; env = 100 }

abbrev pub message : String → Notification
message channel = record {
  payload = "{}";
  id = 1;
  tenant_id = 7;
  user_id = 8;
  created_at = 10;
  updated_at = 20;
  next_retry_at = none;
  error_message = none;
  channel = channel;
  status = status_processing;
  attempt = 0;
}

abbrev pub ses : Sender services
ses = ses_sender services "noreply@nimbus.dev"

email_fails :
    (ses.send (message "email") world).error ≡ some (failed "ses send failed" "unavailable")
unfolding ses_sender
email_fails = refl

later_header_wins :
    set_headers (λ k. k) (("A", "2") ∷ ("B", "3") ∷ []) (("A", "1") ∷ [])
    ≡ ("A", "2") ∷ ("B", "3") ∷ []
unfolding set_headers set_header
later_header_wins = refl

routes_to_first_example :
    ((multi_sender services (ses ∷ [])).send (message "sms") world
      ≡ fails services (no_sender "sms") (message "sms") world)
    × ((multi_sender services (ses ∷ sns_sender services ∷ [])).send (message "sms") world
        ≡ (sns_sender services).send (message "sms") world)
unfolding multi_sender ses_sender sns_sender
routes_to_first_example =
    routes_to_first services (ses ∷ []) (sns_sender services) [] (message "sms") world refl refl

webhook_succeeds_iff_example :
    (((webhook_sender services (pos 0)).send (message "webhook") world).error ≡ none)
    ↔ DeliversWebhook services (pos 0) (message "webhook") world
webhook_succeeds_iff_example = webhook_succeeds_iff services (pos 0) (message "webhook") world

abbrev ses_config : Config
ses_config = breaker_config "ses-email"

ses_config-FitsInt64 : FitsInt64 ses_config
ses_config-FitsInt64 = ground arith

abbrev batch : List Notification
batch = message "email" ∷ message "email" ∷ message "sms" ∷ []

ses_error :
    (n : Notification) (w : World services) → (e : SendError) × ((ses.send n w).error ≡ some e)
unfolding ses_sender
ses_error n w = elim (Bool-cases (str_eq n.channel "email")) [
  | inl h ↦ elim (Bool-cases (str_eq n.payload "")) [
    | inl k ↦ rw (h, k) (_, refl)
    | inr k ↦ rw (h, k) (_, refl)
  ]
  | inr h ↦ rw h (_, refl)
]

ses_apart : (n : Notification) (w : World services) → (ses.send n w).world.breakers 0 ≡ w.breakers 0
unfolding ses_sender
ses_apart n w = ground arith

ses_counted : (n : Notification) (w : World services) → (ses.send n w).world.env ≤ w.env + 1
unfolding ses_sender
ses_counted n w = ground arith

-- SES is down: a notification of any channel fails at its sender. Its clock ticks with each request.
ses-IsDown : IsDown services ses ses_breaker (λ t. t)
ses-IsDown = record { error = ses_error; apart = ses_apart; counted = ses_counted }

outage_is_contained_example : (send_all services ses ses_breaker batch world).env ≤ 100 + 5
unfolding gateway_breakers new protected_send ses_sender allow record_failure
outage_is_contained_example =
    outage_is_contained services ses ses_breaker (λ t. t) ses_config 0 100 batch world
      ses_config-FitsInt64 ses-IsDown refl
      (
        (ground arith, ground arith, ground arith),
        (
          (ground arith, ground arith, ground arith),
          ((ground arith, ground arith, ground arith), tt),
        ),
      )

channels_isolated_example :
    let w' =
      ((gateway_sender services "noreply@nimbus.dev" (pos 0) true true).send
        (message "sms")
        world).world in
    ((str_eq "sms" channel_email ≡ true) ⊎ (w'.breakers ses_breaker ≡ world.breakers ses_breaker))
    × ((str_eq "sms" channel_sms ≡ true) ⊎ (w'.breakers sns_breaker ≡ world.breakers sns_breaker))
    × ((str_eq "sms" channel_webhook ≡ true)
        ⊎ (w'.breakers webhook_breaker ≡ world.breakers webhook_breaker))
channels_isolated_example =
    channels_isolated services "noreply@nimbus.dev" (pos 0) true true (message "sms") world
