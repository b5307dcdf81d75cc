-- ===== src/Sender/Isolation.antt =====
-- The channels that cmd/gateway/main.go wires do not share their breakers.
use mathlib.Core.Bool.{false≢true}
use nimbus_app.Prelude.{
  true_or, ℕ, ◌≡◌, refl, ◌≢◌, String, Bool, true, false, List, [], ◌∷◌, arith, str_eq, Bool-cases,
  inl, inr, Option-cases, ◌⊎◌, ◌∙◌, sym, All,
}
use nimbus_app.Prelude.Int.{ℤ}
use nimbus_app.Breaker.{allow}
use nimbus_app.Db.{Notification, channel_email, channel_sms, channel_webhook}
use nimbus_app.Sender.{Providers, World, Sender, multi_sender, Generated}
use nimbus_app.Sender.Channel.{ses_sender, sns_sender}
use nimbus_app.Sender.Webhook.{webhook_sender}
use nimbus_app.Sender.Protected.{protected_sender, set_breaker}
use nimbus_app.Sender.Enrich.{enrichment_sender, enriched, body_of, user_prompt, system_prompt}
use nimbus_app.Sender.Wiring.{
  gateway_sender, channel_senders, ses_breaker, sns_breaker, webhook_breaker,
}

module _ (P : Providers) where
  -- A sender that leaves one breaker alone, for notifications on channels that pass a test.
  abbrev Spares : (String → Bool) → ℕ → Sender P → Type 0
  Spares on i s =
      (n : Notification) (w : World P)
      → on n.channel ≡ true
      → (s.send n w).world.breakers i ≡ w.breakers i

  ses-Spares : (from : String) (i : ℕ) → Spares (λ c. true) i (ses_sender P from)
  unfolding ses_sender
  ses-Spares from i n w h = ground arith

  sns-Spares : (i : ℕ) → Spares (λ c. true) i (sns_sender P)
  unfolding sns_sender
  sns-Spares i n w h = ground arith

  webhook-Spares : (t : ℤ) (i : ℕ) → Spares (λ c. true) i (webhook_sender P t)
  unfolding webhook_sender
  webhook-Spares t i n w h = ground arith

  protected-Spares :
      (s : Sender P) (a i : ℕ)
      → i ≢ a
      → Spares (λ c. true) i s
      → Spares (λ c. true) i (protected_sender P s a)
  unfolding protected_sender
  protected-Spares s a i apart h n w on =
      ground (arith, h n (set_breaker P a (allow (P.clock w.env) (w.breakers a)).0 w) refl)

  -- The router asks one sender that supports the channel, or none.
  multi-spares :
      (i : ℕ) (senders : List (Sender P)) (n : Notification) (w : World P)
      → All
          (λ (s : Sender P).
            s.supports_channel n.channel ≡ true → (s.send n w).world.breakers i ≡ w.breakers i)
          senders
      → ((multi_sender P senders).send n w).world.breakers i ≡ w.breakers i
  unfolding multi_sender
  multi-spares i [] n w h = refl
  multi-spares i (s ∷ senders) n w h = elim (Bool-cases (s.supports_channel n.channel)) [
    | inl e ↦ rw e (h.0 e)
    | inr e ↦ rw e (multi-spares i senders n w h.1)
  ]

  module _ (from : String) (t : ℤ) (n : Notification) (w : World P) where
    -- A channel's sender touches no breaker but its own, and is asked for its own channel only.
    email_spares :
        (i : ℕ)
        → (str_eq n.channel channel_email ≡ false) ⊎ (i ≢ ses_breaker)
        → let s = protected_sender P (ses_sender P from) ses_breaker in
          s.supports_channel n.channel ≡ true → (s.send n w).world.breakers i ≡ w.breakers i
    email_spares i (inl off) on =
        absurd (false≢true (sym off ∙ (unfold protected_sender ses_sender in on)))
    email_spares i (inr apart) on =
        protected-Spares (ses_sender P from) ses_breaker i apart (ses-Spares from i) n w refl

    sms_spares :
        (i : ℕ)
        → (str_eq n.channel channel_sms ≡ false) ⊎ (i ≢ sns_breaker)
        → let s = protected_sender P (sns_sender P) sns_breaker in
          s.supports_channel n.channel ≡ true → (s.send n w).world.breakers i ≡ w.breakers i
    sms_spares i (inl off) on =
        absurd (false≢true (sym off ∙ (unfold protected_sender sns_sender in on)))
    sms_spares i (inr apart) on =
        protected-Spares (sns_sender P) sns_breaker i apart (sns-Spares i) n w refl

    webhook_spares :
        (i : ℕ)
        → (str_eq n.channel channel_webhook ≡ false) ⊎ (i ≢ webhook_breaker)
        → let s = protected_sender P (webhook_sender P t) webhook_breaker in
          s.supports_channel n.channel ≡ true → (s.send n w).world.breakers i ≡ w.breakers i
    webhook_spares i (inl off) on =
        absurd (false≢true (sym off ∙ (unfold protected_sender webhook_sender in on)))
    webhook_spares i (inr apart) on =
        protected-Spares (webhook_sender P t) webhook_breaker i apart (webhook-Spares t i) n w refl

    -- One breaker that no sender on the notification's way owns.
    multi_isolated :
        (sns : Bool) (i : ℕ)
        → (str_eq n.channel channel_email ≡ false) ⊎ (i ≢ ses_breaker)
        → (str_eq n.channel channel_sms ≡ false) ⊎ (i ≢ sns_breaker)
        → (str_eq n.channel channel_webhook ≡ false) ⊎ (i ≢ webhook_breaker)
        → ((multi_sender P (channel_senders P from t sns)).send n w).world.breakers i ≡ w.breakers i
    unfolding channel_senders
    multi_isolated true i e s h =
        multi-spares i (channel_senders P from t true) n w
          (email_spares i e, (sms_spares i s, (webhook_spares i h, tt)))
    multi_isolated false i e s h =
        multi-spares i (channel_senders P from t false) n w
          (email_spares i e, (webhook_spares i h, tt))

  abbrev Keeps : ℕ → String → Sender P → Type 0
  Keeps i c s =
      (n : Notification) (w : World P)
      → n.channel ≡ c
      → (s.send n w).world.breakers i ≡ w.breakers i

  enrichment-Keeps :
      (i : ℕ) (c : String) (s : Sender P) → Keeps i c s → Keeps i c (enrichment_sender P s)
  unfolding enrichment_sender enriched
  enrichment-Keeps i c s h n w e = elim (Option-cases (P.parse_template n.payload)) [
    | inl q ↦ ground (arith, q, h n w e)
    | inr (tp, q) ↦
        let out : Generated × P.Env = P.generate_text system_prompt (user_prompt tp) w.env in
        ground
          (arith, q, h n w e, h (enriched P tp (body_of tp out.0) n) (record w { env = out.1 }) e)
  ]

  -- A send through the gateway, with or without SNS and the language model, leaves every breaker
  -- alone that does not belong to the notification's channel: of a notification that is not an email
  -- the email breaker hears nothing, and so for SMS and for webhooks.
  pub channels_isolated :
      (from : String) (t : ℤ) (sns ai : Bool) (n : Notification) (w : World P)
      → let w' = ((gateway_sender P from t sns ai).send n w).world in
        ((str_eq n.channel channel_email ≡ true)
          ⊎ (w'.breakers ses_breaker ≡ w.breakers ses_breaker))
        × ((str_eq n.channel channel_sms ≡ true)
            ⊎ (w'.breakers sns_breaker ≡ w.breakers sns_breaker))
        × ((str_eq n.channel channel_webhook ≡ true)
            ⊎ (w'.breakers webhook_breaker ≡ w.breakers webhook_breaker))
  channels_isolated from t sns ai n w = (
    true_or _ (λ e. through ses_breaker (inl e) (inr (λ q. omega arith)) (inr (λ q. omega arith))),
    true_or _ (λ e. through sns_breaker (inr (λ q. omega arith)) (inl e) (inr (λ q. omega arith))),
    true_or _
        (λ e. through webhook_breaker (inr (λ q. omega arith)) (inr (λ q. omega arith)) (inl e)),
  )
    where
      routed :
          (i : ℕ)
          → (str_eq n.channel channel_email ≡ false) ⊎ (i ≢ ses_breaker)
          → (str_eq n.channel channel_sms ≡ false) ⊎ (i ≢ sns_breaker)
          → (str_eq n.channel channel_webhook ≡ false) ⊎ (i ≢ webhook_breaker)
          → Keeps i n.channel (multi_sender P (channel_senders P from t sns))
      routed i e s h m v q =
          multi_isolated from t m v sns i (rw (← q) at e) (rw (← q) at s) (rw (← q) at h)

      through :
          (i : ℕ)
          → (str_eq n.channel channel_email ≡ false) ⊎ (i ≢ ses_breaker)
          → (str_eq n.channel channel_sms ≡ false) ⊎ (i ≢ sns_breaker)
          → (str_eq n.channel channel_webhook ≡ false) ⊎ (i ≢ webhook_breaker)
          → ((gateway_sender P from t sns ai).send n w).world.breakers i ≡ w.breakers i
      through i e s h = elim (Bool-cases ai) [
        | inl q ↦
            unfold gateway_sender in
            rw q (
              enrichment-Keeps i n.channel (multi_sender P (channel_senders P from t sns))
                (routed i e s h) n w refl)
        | inr q ↦ unfold gateway_sender in rw q (routed i e s h n w refl)
      ]
