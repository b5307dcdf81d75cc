-- ===== src/Ai/Compose/Tools.antt =====
-- internal/ai/compose.go: the tools that the model is told of, and its instructions.
use nimbus_app.Prelude.{String, List, [], ◌∷◌}
use nimbus_app.Ai.{Tool}

abbrev function_tool : String → String → String → Tool
function_tool name description parameters = record {
  kind = "function";
  function = record { name = name; description = description; parameters = parameters };
}

-- The parameters are the source's JSON, compacted as the encoder sends it.
abbrev pub nimbus_tools : List Tool
nimbus_tools =
    function_tool "create_notification"
      "Create and send a notification via email, SMS, or webhook through Nimbus."
      "{\"type\":\"object\",\"properties\":{\"channel\":{\"type\":\"string\",\"enum\":[\"email\",\"sms\",\"webhook\"],\"description\":\"Notification channel\"},\"to\":{\"type\":\"string\",\"description\":\"Recipient: email address, phone number, or webhook URL\"},\"subject\":{\"type\":\"string\",\"description\":\"Email subject line (email channel only)\"},\"body\":{\"type\":\"string\",\"description\":\"Message body or content\"}},\"required\":[\"channel\",\"to\",\"body\"]}"
    ∷ function_tool "list_notifications"
        "List recent notifications for the current tenant. Use to check status or history."
        "{\"type\":\"object\",\"properties\":{\"limit\":{\"type\":\"integer\",\"description\":\"Max results to return (default 10, max 50)\"}}}"
    ∷ function_tool "get_notification_status"
        "Get the delivery status of a specific notification by ID."
        "{\"type\":\"object\",\"properties\":{\"notification_id\":{\"type\":\"string\",\"description\":\"UUID of the notification to check\"}},\"required\":[\"notification_id\"]}"
    ∷ []

abbrev pub system_prompt : String
system_prompt =
    "You are an AI assistant integrated into Nimbus, a multi-channel notification platform.\nYou help users send notifications (email, SMS, webhook) and check their status using natural language.\n\nWhen creating notifications:\n- For email: always include a subject and body\n- For SMS: include just the message body and phone number\n- For webhook: include the URL and JSON body\n\nAlways confirm what you did after executing tools. Be concise."
