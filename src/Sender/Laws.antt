-- ===== src/Sender/Laws.antt =====
-- What the senders of internal/worker, and the router over them, answer.
use nimbus_app.Prelude.{
  ◌≡◌, refl, ◌↔◌, ◌⊎◌, inl, inr, ◌≢◌, String, Bool, true, false, ◌&&◌, none, List, [], ◌∷◌, ◌++◌,
  arith, str_eq, Bool-cases, str_eq_refl, str_eq_apart, eq_iff, ltb, leb,
}
use nimbus_app.Prelude.Int.{ℤ}
use nimbus_app.Db.{Notification, channel_email, channel_webhook}
use nimbus_app.Sender.{
  Providers, World, Sender, EmailPayload, WebhookPayload, HttpResult, no_response, response,
  no_sender, multi_sender, fails, Parsed, malformed, parsed,
}
use nimbus_app.Sender.Channel.{ses_sender}
use nimbus_app.Sender.Webhook.{
  webhook_sender, webhook_payload, webhook_request, method_of, method_supported,
}

-- An answer with a status from 200 to 299.
abbrev pub is_2xx : HttpResult → Bool
is_2xx (no_response e) = false
is_2xx (response code body) = leb 200 code && ltb code 300

Parsed-cases :
    {A : Type 0} (r : Parsed A) → ((e : String) × (r ≡ malformed e)) ⊎ ((x : A) × (r ≡ parsed x))
Parsed-cases (malformed e) = inl (e, refl)
Parsed-cases (parsed x) = inr (x, refl)

true_not_false : (b : Bool) → b ≡ true → b ≡ false → ⊥
true_not_false b h e = ground arith

module _ (P : Providers) where
  -- Where no sender of a list supports the channel and `s` does: the router over the list alone returns
  -- an error that names the channel and leaves the world alone, and the router over the list, `s` and
  -- any others gives the notification to `s` and to no other.
  pub routes_to_first :
      (before : List (Sender P)) (s : Sender P) (after : List (Sender P)) (notif : Notification)
      (w : World P)
      → (multi_sender P before).supports_channel notif.channel ≡ false
      → s.supports_channel notif.channel ≡ true
      → ((multi_sender P before).send notif w ≡ fails P (no_sender notif.channel) notif w)
        × ((multi_sender P (before ++ s ∷ after)).send notif w ≡ s.send notif w)
  unfolding multi_sender
  routes_to_first [] s after notif w h e = (refl, ground arith)
  routes_to_first (b ∷ before) s after notif w h e =
      ground (arith, routes_to_first before s after notif w)

  -- The email sender succeeds exactly if the channel is email, the payload decodes with all three
  -- fields non-empty, and SES takes the message.
  pub ses_succeeds_iff :
      (from : String) (notif : Notification) (w : World P)
      → (((ses_sender P from).send notif w).error ≡ none) ↔ (
          (str_eq notif.channel channel_email ≡ true)
          × ((p : EmailPayload) × (P.parse_email notif.payload ≡ parsed p)
              × (str_eq p.to "" ≡ false)
              × (str_eq p.subject "" ≡ false)
              × (str_eq p.body "" ≡ false)
              × ((P.send_email from p w.env).0 ≡ none)))
  unfolding ses_sender
  ses_succeeds_iff from notif w = ground arith

  -- The request of a payload goes out with the method `m` and is answered with success.
  abbrev pub Succeeds : ℤ → Notification → World P → WebhookPayload → String → Type 0
  Succeeds t notif w p m =
      let request = webhook_request P t notif p in
      (P.new_request m p.url ≡ none)
      × (request.method ≡ m)
      × (request.url ≡ p.url)
      × (request.body ≡ p.body)
      × (is_2xx (P.http_do request w.env).0 ≡ true)

  -- There is a URL, and the method is none (POST), POST, PUT or PATCH.
  abbrev pub Delivers : ℤ → Notification → World P → WebhookPayload → Type 0
  Delivers t notif w p =
      (p.url ≢ "")
      × (((p.method ≡ "") × Succeeds t notif w p "POST")
          ⊎ ((p.method ≡ "POST") × Succeeds t notif w p "POST")
          ⊎ ((p.method ≡ "PUT") × Succeeds t notif w p "PUT")
          ⊎ ((p.method ≡ "PATCH") × Succeeds t notif w p "PATCH"))

  -- The same, as the code tests it.
  abbrev PassesTests : ℤ → Notification → World P → WebhookPayload → Type 0
  PassesTests t notif w p =
      (str_eq p.url "" ≡ false)
      × (method_supported (method_of p.method) ≡ true)
      × (P.new_request (method_of p.method) p.url ≡ none)
      × (is_2xx (P.http_do (webhook_request P t notif p) w.env).0 ≡ true)

  tests_of_method :
      (k : String)
      → method_supported (method_of k) ≡ true
      → ((k ≡ "") × (method_of k ≡ "POST"))
        ⊎ ((k ≡ "POST") × (method_of k ≡ "POST"))
        ⊎ ((k ≡ "PUT") × (method_of k ≡ "PUT"))
        ⊎ ((k ≡ "PATCH") × (method_of k ≡ "PATCH"))
  unfolding method_of
  tests_of_method k h =
      ground (arith, (eq_iff k "").0, (eq_iff k "POST").0, (eq_iff k "PUT").0, (eq_iff k "PATCH").0)

  request_of_tests :
      (t : ℤ) (notif : Notification) (w : World P) (p : WebhookPayload) (m : String)
      → method_of p.method ≡ m
      → PassesTests t notif w p
      → Succeeds t notif w p m
  unfolding webhook_request
  request_of_tests t notif w p m e (u, s, r, a) = (rw e at r, e, refl, refl, a)

  delivery_of_tests :
      (t : ℤ) (notif : Notification) (w : World P) (p : WebhookPayload)
      → PassesTests t notif w p
      → Delivers t notif w p
  delivery_of_tests t notif w p h = (
    λ e. true_not_false (str_eq p.url "") (rw e (str_eq_refl "")) h.0,
    elim (tests_of_method p.method h.1) [
      | inl (k, e) ↦ inl (k, request_of_tests t notif w p "POST" e h)
      | inr (inl (k, e)) ↦ inr (inl (k, request_of_tests t notif w p "POST" e h))
      | inr (inr (inl (k, e))) ↦ inr (inr (inl (k, request_of_tests t notif w p "PUT" e h)))
      | inr (inr (inr (k, e))) ↦ inr (inr (inr (k, request_of_tests t notif w p "PATCH" e h)))
    ],
  )

  tests_of_request :
      (t : ℤ) (notif : Notification) (w : World P) (p : WebhookPayload) (m : String)
      → p.url ≢ ""
      → method_of p.method ≡ m
      → method_supported m ≡ true
      → Succeeds t notif w p m
      → PassesTests t notif w p
  tests_of_request t notif w p m u e s (r, x, y, z, a) =
      (str_eq_apart p.url "" u, rw e s, rw e r, a)

  tests_of_delivery :
      (t : ℤ) (notif : Notification) (w : World P) (p : WebhookPayload)
      → Delivers t notif w p
      → PassesTests t notif w p
  unfolding method_of
  tests_of_delivery t notif w p (u, inl (k, s)) =
      tests_of_request t notif w p "POST" u (rw k refl) refl s
  tests_of_delivery t notif w p (u, inr (inl (k, s))) =
      tests_of_request t notif w p "POST" u (rw k refl) refl s
  tests_of_delivery t notif w p (u, inr (inr (inl (k, s)))) =
      tests_of_request t notif w p "PUT" u (rw k refl) refl s
  tests_of_delivery t notif w p (u, inr (inr (inr (k, s)))) =
      tests_of_request t notif w p "PATCH" u (rw k refl) refl s

  webhook_payload_iff :
      (t : ℤ) (notif : Notification) (w : World P) (p : WebhookPayload)
      → ((webhook_payload P t notif w (parsed p)).error ≡ none) ↔ PassesTests t notif w p
  unfolding webhook_payload
  webhook_payload_iff t notif w p = ground arith

  not_webhook :
      (t : ℤ) (notif : Notification) (w : World P)
      → (str_eq notif.channel channel_webhook ≡ false)
        ⊎ ((e : String) × (P.parse_webhook notif.payload ≡ malformed e))
      → ((webhook_sender P t).send notif w).error ≢ none
  unfolding webhook_sender
  not_webhook t notif w h = ground arith

  webhook-payload :
      (t : ℤ) (notif : Notification) (w : World P) (p : WebhookPayload)
      → str_eq notif.channel channel_webhook ≡ true
      → P.parse_webhook notif.payload ≡ parsed p
      → (webhook_sender P t).send notif w ≡ webhook_payload P t notif w (parsed p)
  unfolding webhook_sender
  webhook-payload t notif w p c e = rw (c, e)

  abbrev pub DeliversWebhook : ℤ → Notification → World P → Type 0
  DeliversWebhook t notif w =
      (str_eq notif.channel channel_webhook ≡ true)
      × ((p : WebhookPayload) × (P.parse_webhook notif.payload ≡ parsed p) × Delivers t notif w p)

  delivers_of_success :
      (t : ℤ) (notif : Notification) (w : World P)
      → ((webhook_sender P t).send notif w).error ≡ none
      → DeliversWebhook t notif w
  delivers_of_success t notif w h = elim (Bool-cases (str_eq notif.channel channel_webhook)) [
    | inr e ↦ absurd (not_webhook t notif w (inl e) h)
    | inl c ↦ elim (Parsed-cases (P.parse_webhook notif.payload)) [
      | inl e ↦ absurd (not_webhook t notif w (inr e) h)
      | inr (p, e) ↦ (
        c,
        (
          p,
          e,
          delivery_of_tests t notif w p
              ((webhook_payload_iff t notif w p).0 (rw (webhook-payload t notif w p c e) at h)),
        ),
      )
    ]
  ]

  success_of_delivers :
      (t : ℤ) (notif : Notification) (w : World P)
      → DeliversWebhook t notif w
      → ((webhook_sender P t).send notif w).error ≡ none
  success_of_delivers t notif w (c, (p, e, d)) =
      rw (webhook-payload t notif w p c e)
        ((webhook_payload_iff t notif w p).1 (tests_of_delivery t notif w p d))

  -- The webhook sender succeeds exactly if the channel is webhook, the payload decodes with a URL and
  -- with POST, PUT, PATCH or no method (which means POST), the request can be built, and the answer
  -- to it has a status from 200 to 299.
  pub webhook_succeeds_iff :
      (t : ℤ) (notif : Notification) (w : World P)
      → (((webhook_sender P t).send notif w).error ≡ none) ↔ DeliversWebhook t notif w
  webhook_succeeds_iff t notif w = (delivers_of_success t notif w, success_of_delivers t notif w)
