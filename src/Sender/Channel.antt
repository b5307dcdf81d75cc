-- ===== src/Sender/Channel.antt =====
-- internal/worker/ses_sender.go and sns_sender.go: the email and the SMS sender.
use nimbus_app.Prelude.{String, not, Option, none, some, str_eq, if◌then◌else◌}
use nimbus_app.Db.{Notification, channel_email, channel_sms}
use nimbus_app.Sender.{
  Providers, World, Sent, Sender, EmailPayload, SmsPayload, only_supports, invalid_payload, missing,
  failed, fails, Parsed, malformed, parsed,
}

module _ (P : Providers) where
  -- A call of a service: its error, if any, under the sender's name for it.
  abbrev pub called : String → Notification → World P → Option String × P.Env → Sent P
  called what notif w (none, env) = record {
    error = none;
    notif = notif;
    world = record w { env = env };
  }
  called what notif w (some e, env) = record {
    error = some (failed what e);
    notif = notif;
    world = record w { env = env };
  }

  -- The checks on the payload and the call of SES.
  email_payload : String → Notification → World P → Parsed EmailPayload → Sent P
  email_payload from notif w (malformed e) = fails P (invalid_payload "email" e) notif w
  email_payload from notif w (parsed p) =
      if str_eq p.to ""
      then fails P (missing "email" "'to' field") notif w
      else if str_eq p.subject ""
      then fails P (missing "email" "'subject' field") notif w
      else if str_eq p.body ""
      then fails P (missing "email" "'body' field") notif w
      else called "ses send failed" notif w (P.send_email from p w.env)

  unfoldable pub ses_sender : String → Sender P
  unfolding email_payload
  ses_sender from = record {
    send = λ notif w.
        if not (str_eq notif.channel channel_email)
        then fails P (only_supports "SES sender only supports email" notif.channel) notif w
        else email_payload from notif w (P.parse_email notif.payload);
    supports_channel = λ channel. str_eq channel channel_email;
  }

  sms_payload : Notification → World P → Parsed SmsPayload → Sent P
  sms_payload notif w (malformed e) = fails P (invalid_payload "SMS" e) notif w
  sms_payload notif w (parsed p) =
      if str_eq p.phone_number ""
      then fails P (missing "SMS" "phone_number") notif w
      else if str_eq p.message ""
      then fails P (missing "SMS" "message") notif w
      else called "sns publish failed" notif w (P.publish p w.env)

  unfoldable pub sns_sender : Sender P
  unfolding sms_payload
  sns_sender = record {
    send = λ notif w.
        if not (str_eq notif.channel channel_sms)
        then fails P (only_supports "SNS sender only supports SMS" notif.channel) notif w
        else sms_payload notif w (P.parse_sms notif.payload);
    supports_channel = λ channel. str_eq channel channel_sms;
  }
