-- ===== src/Tests/Reconnects.antt =====
-- Reconnect attempts after failures.
use quipnet.Base.{◌≡◌, refl, none, [], ◌∷◌, text, arith, true}
use quipnet.Model.{bulk}
use quipnet.Quic.{Adapter, Target, Schedule, schedule_reconnect}
use quipnet.Quic.Backoff.{attempt_number, fail_at, schedule_reconnect-attempt_number}
use quipnet.Tests.Toy.{toy}

abbrev fresh : Adapter
fresh = record {
  supports_datagrams = true;
  supports_path_migration = true;
  runtime_instance_id = text "quip-runtime-1";
  network_id = none;
  local_identity = none;
  runtime_sessions = [];
  terminal_sessions = [];
  runtime_listeners = [];
  runtime_events = [];
  reconnect_suppressions = [];
  reconnect_attempts = [];
}

abbrev server : Target
server = record { peer = text "server"; protocol = none; class = bulk }

abbrev five_times : Schedule
five_times = record {
  reason = text "timeout";
  max_attempts = 5;
  base_backoff_secs = 2;
  max_backoff_secs = 6;
}

-- The third failure waits six seconds, not eight.
schedule_reconnect-attempt_number_example :
    (schedule_reconnect toy 140 server five_times
      (fail_at server five_times toy (100 ∷ 120 ∷ []) fresh)).1
    ≡ attempt_number 140 server five_times 3
schedule_reconnect-attempt_number_example =
    schedule_reconnect-attempt_number server five_times toy 140 (100 ∷ 120 ∷ []) fresh
      (ground arith) (ground arith) refl
