-- ===== src/Queue/Examples.antt =====
-- A batch for internal/sqs/producer.go whose second message is refused.
use nimbus_app.Prelude.{ℕ, zero, suc, String, ◌≡◌, refl, none, [], ◌∷◌}
use nimbus_app.Prelude.Fallible.{Fallible, value, failed}
use nimbus_app.Api.{decoded}
use nimbus_app.Rpc.Examples.{digits, other_row}
use nimbus_app.Queue.{Sqs, enqueue, enqueue_batch, receive_message}

abbrev answer_at : ℕ → Fallible String
answer_at (suc zero) = failed "throttled"
answer_at n = value "m"

abbrev busy : Sqs
busy = record {
  Env = ℕ;
  send_message = λ b n. (answer_at n, suc n);
  receive = λ m w v n. (value [], n);
  delete = λ h n. (value tt, n);
  change_visibility = λ h s n. (value tt, n);
  now = λ n. n;
  encode = λ m. decoded m.payload;
  decode = λ b. decoded (record {
    notification_id = b;
    tenant_id = b;
    user_id = b;
    channel = b;
    payload = b;
    attempt = 0;
    enqueued_at = 0;
  });
}

leaves_out_what_fails :
    enqueue_batch digits busy (other_row ∷ other_row ∷ other_row ∷ []) 0 ≡ ("m" ∷ "m" ∷ [], 3)
unfolding enqueue_batch enqueue
leaves_out_what_fails = refl

waits_in_vain : receive_message digits busy 0 ≡ (value none, 0)
unfolding receive_message
waits_in_vain = refl
