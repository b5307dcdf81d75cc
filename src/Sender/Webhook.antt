-- ===== src/Sender/Webhook.antt =====
-- internal/worker/webhook_sender.go: the webhook sender.
use nimbus_app.Prelude.{
  ◌*◌, ◌%◌, ◌^◌, String, Bool, not, ◌||◌, Option, none, some, List, [], ◌∷◌, ltb, leb, str_eq,
  if◌then◌else◌,
}
use nimbus_app.Prelude.Int.{ℤ, pos, negsuc, int64}
use nimbus_app.Breaker.{second}
use nimbus_app.Db.{Notification, channel_webhook}
use nimbus_app.Sender.{
  Providers, World, Sent, Sender, WebhookPayload, HttpRequest, HttpResult, no_response, response,
  only_supports, invalid_payload, missing, method_not_supported, failed, non_2xx, fails, Parsed,
  malformed, parsed,
}

-- `30 * time.Second`, or `time.Duration(payload.Timeout) * time.Second` in 64 bits
unfoldable pub request_timeout : ℤ → ℤ
request_timeout (negsuc n) = pos (30 * second)
request_timeout (pos n) = if ltb 0 n then int64 ((n * second) % 2 ^ 64) else pos (30 * second)

-- `NewWebhookSender`
abbrev pub client_timeout : ℤ → ℤ
client_timeout (pos n) = if ltb 0 n then pos n else pos (30 * second)
client_timeout (negsuc n) = negsuc n

unfoldable pub method_of : String → String
method_of m = if str_eq m "" then "POST" else m

abbrev pub method_supported : String → Bool
method_supported m = str_eq m "POST" || str_eq m "PUT" || str_eq m "PATCH"

-- `Header.Set(key, value)`: one value for each canonical key.
unfoldable pub set_header : String → String → List (String × String) → List (String × String)
set_header key value [] = (key, value) ∷ []
set_header key value ((k, v) ∷ headers) =
    if str_eq k key then (key, value) ∷ headers else (k, v) ∷ set_header key value headers

unfoldable pub set_headers :
    (String → String) → List (String × String) → List (String × String) → List (String × String)
set_headers canonical [] headers = headers
set_headers canonical ((k, v) ∷ more) headers =
    set_headers canonical more (set_header (canonical k) v headers)

module _ (P : Providers) where
  -- The four headers of every request.
  unfoldable pub nimbus_headers : Notification → List (String × String)
  nimbus_headers notif =
      set_headers P.canonical
        (("Content-Type", "application/json")
          ∷ ("User-Agent", "Nimbus/1.0.0")
          ∷ ("X-Nimbus-Notification-ID", P.uuid_string notif.id)
          ∷ ("X-Nimbus-Tenant-ID", P.uuid_string notif.tenant_id)
          ∷ [])
        []

  unfoldable pub webhook_request : ℤ → Notification → WebhookPayload → HttpRequest
  webhook_request default_timeout notif p = record {
    method = method_of p.method;
    url = p.url;
    body = p.body;
    headers = set_headers P.canonical p.headers (nimbus_headers notif);
    timeout = request_timeout p.timeout;
    client_timeout = client_timeout default_timeout;
  }

  -- The tests on the answer of `s.client.Do`.
  abbrev pub answered : Notification → World P → HttpResult × P.Env → Sent P
  answered notif w (no_response e, env) =
      fails P (failed "webhook request failed" e) notif (record w { env = env })
  answered notif w (response code body, env) =
      if ltb code 200 || leb 300 code
      then fails P (non_2xx code body) notif (record w { env = env })
      else record { error = none; notif = notif; world = record w { env = env } }

  abbrev pub requested : ℤ → Notification → World P → WebhookPayload → Option String → Sent P
  requested t notif w p (some e) = fails P (failed "failed to create webhook request" e) notif w
  requested t notif w p none = answered notif w (P.http_do (webhook_request t notif p) w.env)

  unfoldable pub webhook_payload : ℤ → Notification → World P → Parsed WebhookPayload → Sent P
  webhook_payload t notif w (malformed e) = fails P (invalid_payload "webhook" e) notif w
  webhook_payload t notif w (parsed p) =
      if str_eq p.url ""
      then fails P (missing "webhook" "url") notif w
      else if not (method_supported (method_of p.method))
      then fails P (method_not_supported (method_of p.method)) notif w
      else requested t notif w p (P.new_request (method_of p.method) p.url)

  unfoldable pub webhook_sender : ℤ → Sender P
  unfolding webhook_payload
  webhook_sender t = record {
    send = λ notif w.
        if not (str_eq notif.channel channel_webhook)
        then fails P (only_supports "webhook sender only supports webhooks" notif.channel) notif w
        else webhook_payload t notif w (P.parse_webhook notif.payload);
    supports_channel = λ channel. str_eq channel channel_webhook;
  }
