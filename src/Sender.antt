-- ===== src/Sender.antt =====
-- internal/worker/senders.go: the interface of a channel's sender, and the router over several. The
-- services that a sender calls stand behind `Providers`; the breakers are objects shared by
-- address, so they live in the world beside them.
pub mod Channel
pub mod Webhook
pub mod Protected
pub mod Enrich
pub mod Wiring
pub mod Outage
pub mod Isolation
pub mod Laws
pub mod Examples
use Prim.Native.String.{◌++◌}
use nimbus_app.Prelude.{
  ℕ, String, Bool, true, false, Option, none, some, List, [], ◌∷◌, ◌||◌, str_eq, if◌then◌else◌,
}
use nimbus_app.Prelude.Int.{ℤ}
use nimbus_app.Breaker.{CircuitBreaker}
use nimbus_app.Db.{Notification, channel_email, channel_sms, channel_webhook}

pub record EmailPayload : Type 0 where
  pub to : String
  pub subject : String
  pub body : String

pub record SmsPayload : Type 0 where
  pub phone_number : String
  pub message : String

-- `headers` in the order in which this run's loop over the map visits them.
pub record WebhookPayload : Type 0 where
  pub url : String
  pub method : String
  pub headers : List (String × String)
  pub body : String
  pub timeout : ℤ

-- `templatePayload` of internal/ai/enrichment.go; `context` in the order of this run's loop.
pub record TemplatePayload : Type 0 where
  pub to : String
  pub subject : String
  pub template : String
  pub context : List (String × String)

pub record HttpRequest : Type 0 where
  pub method : String
  pub url : String
  pub body : String
  pub headers : List (String × String)
  pub timeout : ℤ
  pub client_timeout : ℤ

pub data HttpResult : Type 0 where
  no_response : String → HttpResult
  response : ℕ → String → HttpResult

pub data Generated : Type 0 where
  no_text : String → Generated
  text : String → Generated

-- The errors of the `Send` methods; `failed` wraps a library's error.
pub data SendError : Type 0 where
  no_sender : String → SendError
  only_supports : String → String → SendError
  invalid_payload : String → String → SendError
  missing : String → String → SendError
  method_not_supported : String → SendError
  failed : String → String → SendError
  non_2xx : ℕ → String → SendError
  circuit_open : String → SendError

-- What decoding a payload gives; an error has its text.
pub data Parsed (A : Type 0) : Type 0 where
  malformed : String → Parsed A
  parsed : A → Parsed A

-- What is not the program's: SES, SNS, the HTTP client, the language model, JSON and the clock, over
-- the state of the world outside. A service answers `none`, or its error's text.
pub record Providers : Type 1 where
  pub Env : Type 0
  pub clock : Env → ℕ
  pub parse_email : String → Parsed EmailPayload
  pub parse_sms : String → Parsed SmsPayload
  pub parse_webhook : String → Parsed WebhookPayload
  pub send_email : String → EmailPayload → Env → Option String × Env
  pub publish : SmsPayload → Env → Option String × Env
  pub new_request : String → String → Option String
  -- `Header.Set` on the canonical form of its key
  pub canonical : String → String
  pub http_do : HttpRequest → Env → HttpResult × Env
  pub parse_template : String → Option TemplatePayload
  pub generate_text : String → String → Env → Generated × Env
  pub email_json : EmailPayload → String
  pub uuid_string : ℕ → String
  pub decimal : ℕ → String

module _ (P : Providers) where
  pub record World : Type 0 where
    pub breakers : ℕ → CircuitBreaker
    pub env : P.Env

  -- What `Send` returns, with the notification and the world as it leaves them.
  pub record Sent : Type 0 where
    pub error : Option SendError
    pub notif : Notification
    pub world : World

  pub record Sender : Type 0 where
    pub send : Notification → World → Sent
    pub supports_channel : String → Bool

  abbrev pub fails : SendError → Notification → World → Sent
  fails e notif w = record { error = some e; notif = notif; world = w }

  -- `MultiSender`: the loops over `m.senders`.
  multi_send : List Sender → Notification → World → Sent
  multi_send [] notif w = fails (no_sender notif.channel) notif w
  multi_send (s ∷ senders) notif w =
      if s.supports_channel notif.channel then s.send notif w else multi_send senders notif w

  multi_supports : List Sender → String → Bool
  multi_supports [] channel = false
  multi_supports (s ∷ senders) channel =
      if s.supports_channel channel then true else multi_supports senders channel

  unfoldable pub multi_sender : List Sender → Sender
  unfolding multi_send multi_supports
  multi_sender senders = record {
    send = multi_send senders;
    supports_channel = multi_supports senders;
  }

  unfoldable pub log_sender : Sender
  log_sender = record {
    send = λ notif w. record { error = none; notif = notif; world = w };
    supports_channel = λ channel.
        str_eq channel channel_email
        || str_eq channel channel_sms
        || str_eq channel channel_webhook;
  }

  -- `err.Error()`
  unfoldable pub error_text : SendError → String
  error_text (no_sender c) = "no sender found for channel: " ++ c
  error_text (only_supports who c) = who ++ ", got: " ++ c
  error_text (invalid_payload what e) = "invalid " ++ what ++ " payload: " ++ e
  error_text (missing what field) = what ++ " payload missing " ++ field
  error_text (method_not_supported m) =
      "webhook method not supported: " ++ m ++ " (only POST, PUT, PATCH)"
  error_text (failed what e) = what ++ ": " ++ e
  error_text (non_2xx code body) =
      "webhook returned non-2xx status: " ++ P.decimal code ++ ", body: " ++ body
  error_text (circuit_open name) = "circuit breaker is open: " ++ name ++ " sender unavailable"
