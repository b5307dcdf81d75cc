-- ===== src/Worker/Examples.antt =====
-- Turns of the worker of internal/worker/worker.go whose sender always fails.
use nimbus_app.Prelude.{
  ◌⊎◌, ◌≡◌, refl, true, false, none, some, List, [], ◌∷◌, arith, ◌≢◌, ◌==◌, if◌then◌else◌,
}
use nimbus_app.Prelude.Int.{pos}
use nimbus_app.Db.{Notification, Database, status_processing}
use nimbus_app.Db.Statement.{done, any}
use nimbus_app.Db.DeadLetter.Atomic.{all_steps}
use nimbus_app.Sender.{World, Sender, failed}
use nimbus_app.Db.Examples.{oldest}
use nimbus_app.Sender.Examples.{services, world}
use nimbus_app.Worker.{Config, Calls, Tick, start, run_ticks, new_config}
use nimbus_app.Worker.Lifecycle.{finished_stays}
use nimbus_app.Worker.Untouched.{rows_of}
use nimbus_app.Worker.Process.{never_panics}

abbrev broken : Sender services
broken = record {
  send = λ n w. record { error = some (failed "send" "down"); notif = n; world = w };
  supports_channel = λ c. true;
}

abbrev row : Notification
row = record {
  payload = "{}";
  id = 1;
  tenant_id = 7;
  user_id = 8;
  created_at = 10;
  updated_at = 20;
  next_retry_at = none;
  error_message = none;
  channel = "email";
  status = status_processing;
  attempt = 0;
}

abbrev table : Database
table = record { notifications = row ∷ []; dead_letters = []; is_json = λ s. true }

abbrev calls : Calls
calls = record { now = 200; fresh = 90; update = done; move = all_steps }

abbrev defaults : Config
defaults = record { poll_interval = pos 5; batch_size = pos 5; max_retries = pos 3 }

abbrev ticks : List Tick
ticks = record { locked = λ i. false; claimed = done; now = 400; calls = λ k. calls } ∷ []

defaults_of_new :
    new_config (record { poll_interval = pos 0; batch_size = pos 0; max_retries = pos 0 })
    ≡ record { poll_interval = pos 5_000_000_000; batch_size = pos 5; max_retries = pos 3 }
unfolding new_config
defaults_of_new = refl

never_panics_example :
    ((false ≡ true) × (start services oldest broken (new_config defaults) ticks world table ≡ none))
    ⊎ ((false ≡ false)
        × (r : World services × Database) × (start services oldest broken
              (new_config defaults)
              ticks
              world
              table
            ≡ some r))
never_panics_example = never_panics services oldest broken defaults ticks world table

-- A sender that would pass the finished notification 1 on.
abbrev passing : Sender services
passing = record {
  send = λ n w. record {
    error = if n.id == 1 then none else some (failed "send" "down");
    notif = n;
    world = w;
  };
  supports_channel = λ c. true;
}

broken_but_one :
    (n : Notification) (w : World services) → n.id ≢ 1 → broken.send n w ≡ passing.send n w
broken_but_one n w apart = ground arith

abbrev finished_table : Database
finished_table = record {
  notifications = record row { status = "sent" } ∷ record row { id = 2 } ∷ [];
  dead_letters = [];
  is_json = λ s. true;
}

finished_stays_example :
    (r : World services × Database) × (run_ticks services oldest broken defaults ticks world
        finished_table
      ≡ some r)
    × (run_ticks services oldest passing defaults ticks world finished_table ≡ some r)
    × (rows_of 1 r.1 ≡ rows_of 1 finished_table)
unfolding any
finished_stays_example =
    finished_stays 1 services broken passing defaults (λ n w. refl) broken_but_one oldest ticks
      world finished_table refl
