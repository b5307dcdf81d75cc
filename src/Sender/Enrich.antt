-- ===== src/Sender/Enrich.antt =====
-- internal/ai/enrichment.go: the decorator that has a language model write an email's body. It puts
-- the new payload into the caller's notification.
use Prim.Native.String.{◌++◌}
use nimbus_app.Prelude.{String, not, Option, none, some, List, [], ◌∷◌, str_eq, if◌then◌else◌}
use nimbus_app.Db.{Notification, channel_email}
use nimbus_app.Sender.{Providers, World, Sent, Sender, TemplatePayload, Generated, no_text, text}

-- the loop over `tp.Context`
abbrev context_text : List (String × String) → String
context_text [] = ""
context_text ((k, v) ∷ more) = "- " ++ k ++ ": " ++ v ++ "\n" ++ context_text more

abbrev pub system_prompt : String
system_prompt =
    "You are a professional email content writer for a notification platform.\nGenerate clear, concise, professional email body text. Return ONLY the email body, no subject line.\nKeep it under 200 words. Use a friendly but professional tone."

unfoldable pub user_prompt : TemplatePayload → String
user_prompt tp =
    "Template: "
    ++ tp.template
    ++ "\nSubject: "
    ++ tp.subject
    ++ "\nContext:\n"
    ++ context_text tp.context
    ++ "\nGenerate the email body."

-- What the model wrote, or the fallback.
unfoldable pub body_of : TemplatePayload → Generated → String
body_of tp (text t) = t
body_of tp (no_text e) = "This is an automated " ++ tp.template ++ " notification."

module _ (P : Providers) where
  unfoldable pub enriched : TemplatePayload → String → Notification → Notification
  enriched tp body notif = record notif {
    payload = P.email_json (record { to = tp.to; subject = tp.subject; body = body });
  }

  enrich : Sender P → Notification → World P → Option TemplatePayload → Sent P
  enrich inner notif w none = inner.send notif w
  enrich inner notif w (some tp) =
      if str_eq tp.template ""
      then inner.send notif w
      else let (g, env) = P.generate_text system_prompt (user_prompt tp) w.env in
        inner.send (enriched tp (body_of tp g) notif) (record w { env = env })

  unfoldable pub enrichment_sender : Sender P → Sender P
  unfolding enrich
  enrichment_sender inner = record {
    send = λ notif w.
        if not (str_eq notif.channel channel_email)
        then inner.send notif w
        else enrich inner notif w (P.parse_template notif.payload);
    supports_channel = inner.supports_channel;
  }
