-- ===== src/Sender/Wiring.antt =====
-- cmd/gateway/main.go: how the gateway builds its sender. The three breakers stand at the addresses
-- 0, 1 and 2; the SMS sender is left out where SNS is not available, and the language model's
-- decorator is put on top where it is configured.
use nimbus_app.Prelude.{ℕ, ◌*◌, String, Bool, true, false, List, [], ◌∷◌, ◌==◌, if◌then◌else◌}
use nimbus_app.Prelude.Int.{ℤ, pos}
use nimbus_app.Breaker.{CircuitBreaker, Config, new, second}
use nimbus_app.Sender.{Providers, Sender, multi_sender}
use nimbus_app.Sender.Channel.{ses_sender, sns_sender}
use nimbus_app.Sender.Webhook.{webhook_sender}
use nimbus_app.Sender.Protected.{protected_sender}
use nimbus_app.Sender.Enrich.{enrichment_sender}

abbrev pub ses_breaker : ℕ
ses_breaker = 0

abbrev pub sns_breaker : ℕ
sns_breaker = 1

abbrev pub webhook_breaker : ℕ
webhook_breaker = 2

-- The literals; `HalfOpenMaxRequests` is left 0, which `New` replaces.
abbrev pub breaker_config : String → Config
breaker_config name = record {
  name = name;
  max_failures = pos 5;
  recovery_timeout = pos (30 * second);
  half_open_max_requests = pos 0;
}

unfoldable pub gateway_breakers : ℕ → ℕ → CircuitBreaker
gateway_breakers now i =
    new
      (breaker_config (
        if i == ses_breaker
        then "ses-email"
        else if i == sns_breaker
        then "sns-sms"
        else "webhook"))
      now

module _ (P : Providers) where
  unfoldable pub channel_senders : String → ℤ → Bool → List (Sender P)
  channel_senders from timeout true =
      protected_sender P (ses_sender P from) ses_breaker
      ∷ protected_sender P (sns_sender P) sns_breaker
      ∷ protected_sender P (webhook_sender P timeout) webhook_breaker
      ∷ []
  channel_senders from timeout false =
      protected_sender P (ses_sender P from) ses_breaker
      ∷ protected_sender P (webhook_sender P timeout) webhook_breaker
      ∷ []

  unfoldable pub gateway_sender : String → ℤ → Bool → Bool → Sender P
  gateway_sender from timeout sns_enabled ai_enabled =
      let multi = multi_sender P (channel_senders from timeout sns_enabled) in
      if ai_enabled then enrichment_sender P multi else multi
