-- ===== src/Tests/Cycles.antt =====
-- A cycle of reconciliation over two sessions: one that the transport has lost, and one without
-- a protocol.
use quipnet.Base.{
  ℕ, Option, none, some, List, [], ◌∷◌, Bytes, text, ◌≡◌, refl, arith, ok, err, ◌*◌, ltb, ◌==◌,
  nat_eq, ap, ◌∙◌, zero, suc, true, bytes_discrete,
}
use quipnet.Base.Maps.{get, contains_key}
use quipnet.Model.{direct_udp, bulk, ProtocolId}
use quipnet.Transport.{SessionSnapshot, LifecycleTransport, active, RouteSource, not_implemented}
use quipnet.Fabric.State.{DaemonState, edge}
use quipnet.Fabric.Files
use quipnet.Fabric.Json.{get_field}
use quipnet.Fabric.Durable.{validate_durable_state_value, is_allowed, check_version, check_fields}
use quipnet.Fabric.Exec.{World, next, reads, ◌>>=◌}
use quipnet.Fabric.Plane.{Plane, refreshed, ensure_state, state_exists, load, save}
use quipnet.Fabric.Sessions.{
  SessionReconcileReport, fail_and_close_session, record_path_failure_event, persist, entry, closed,
}
use quipnet.Fabric.Sessions.Reconcile.{
  reconcile_sessions, reconcile_all, reconcile_session, found, negotiated, give_up, noted_closed,
}
use quipnet.Fabric.Cycles.Reports.{Counts}
use quipnet.Fabric.Cycles.{cycle_over, reconcile_sessions-Counts}
use quipnet.Fabric.Cycles.Rounds.{Answers}
use quipnet.Tests.Daemons.{serde, floats, daemon, disk}
use quipnet.Tests.Toy.{toy}

abbrev open_session : Bytes → Option ProtocolId → SessionSnapshot
open_session id protocol = record {
  session_id = id;
  transport_session_id = id;
  relay_attempt_id = none;
  peer = text "server";
  protocol = protocol;
  class = bulk;
  path_kind = direct_udp;
  source = RouteSource.observed;
  remote_endpoint = text "198.51.100.24:8443";
  relay_peer = none;
  relay_endpoint = none;
  relay_control_endpoint = none;
  datagrams_capable = true;
  migration_capable = true;
  state = active;
  closure_reason = none;
  state_reason = none;
  created_at_unix_secs = 5;
  last_activity_unix_secs = 6;
}

-- The transport of the test holds a session but for the ids that start with 0; those that start with 1
-- have no protocol.
abbrev held : Bytes → Option SessionSnapshot
held (zero ∷ id) = none
held (suc zero ∷ id) = some (open_session (1 ∷ id) none)
held id = some (open_session id (some (text "/quip/records/1")))

held-id : (id : Bytes) (s : SessionSnapshot) → held id ≡ some s → s.session_id ≡ id
held-id [] s e = ground arith
held-id (zero ∷ id) s e = ground arith
held-id (suc zero ∷ id) s e = ground arith
held-id (suc (suc n) ∷ id) s e = ground arith

-- The runtime is the list of the open sessions.
abbrev pub runtime : LifecycleTransport (List SessionSnapshot)
runtime = record {
  connect = λ route ss. (err not_implemented, ss);
  active_sessions = λ ss. ok ss;
  session_snapshot = λ id ss. ok (held id);
  recent_terminal_sessions = λ n ss. ok [];
  update_session_state = λ id state closure reason ss. (ok (held id), ss);
  recent_events = λ n ss. ok [];
  suppress_reconnect = λ peer protocol class reason ss. (ok tt, ss);
  clear_reconnect_suppression = λ peer protocol class ss. (ok tt, ss);
  reconnect_suppressions = λ ss. ok [];
  active_listeners = λ ss. ok [];
  update_listener_state = λ id state reason ss. (ok none, ss);
  transport_health = λ ss. err not_implemented;
  reconnect_attempts = λ ss. ok [];
  record_runtime_event = λ event ss. (ok tt, ss);
  migrate = λ session route ss. (err not_implemented, ss);
  close_session = λ session ss. (ok tt, ss);
}

abbrev pub plane : Plane ℕ (List SessionSnapshot)
plane = record {
  config = record { network = text "lab"; state_path = text "state.json"; roles = edge ∷ [] };
  crypto = toy;
  json = λ u. u.subject_peer_id;
  floats = floats;
  scaled = λ loss n. loss * n;
  at_least_one = λ loss. ltb 0 loss;
  loss_eq = λ a b. a == b;
  serde = serde;
  transport = runtime;
}

abbrev pub sessions : List SessionSnapshot
sessions = open_session (0 ∷ []) none ∷ open_session (1 ∷ []) none ∷ []

answers : Answers plane (λ ss. Unit {0})
answers = record {
  keeps = record {
    connects = λ route ss h i. i;
    updates = λ id state closure reason ss i. i;
    suppresses = λ peer protocol class reason ss i. i;
    clears = λ peer protocol class ss i. i;
    marks_listener = λ id state reason ss i. i;
    notes = λ e ss i. i;
    migrates = λ s route ss h i. i;
    closes = λ s ss i. i;
  };
  named = λ id ss s i e. held-id id s (ground (arith, e));
}

abbrev world : World (List SessionSnapshot)
world = record { disk = disk; runtime = sessions }

abbrev report : SessionReconcileReport
report = record {
  examined = 2;
  unchanged = 0;
  upgraded = 0;
  closed = 2;
  entries =
      entry (open_session (0 ∷ []) none) closed (text "session is not active in runtime transport")
        none
      ∷ entry (open_session (1 ∷ []) none) closed (text "session is missing negotiated protocol")
          none
      ∷ [];
}

pub present : contains_key (text "state.json") disk ≡ true
unfolding get bytes_discrete
present = ground arith

stored_there : get (text "state.json") disk ≡ some (2 ∷ [])
unfolding get bytes_discrete
stored_there = ground arith

pub loads : Files.load toy serde disk (text "state.json") ≡ ok daemon
unfolding Files.load validate_durable_state_value check_version check_fields get_field
    bytes_discrete is_allowed
loads = ground (arith, stored_there)

ready : ensure_state plane world ≡ (ok (refreshed plane daemon), world)
unfolding ensure_state state_exists load ◌>>=◌
ready = rw (present, ensure_state) (rw (loads, ensure_state) refl)

abbrev after : DaemonState ℕ → World (List SessionSnapshot)
after s = (cycle_over plane s sessions world).1

closes : (s : DaemonState ℕ) → cycle_over plane s sessions world ≡ (ok report, after s)
unfolding ◌>>=◌ reconcile_all reconcile_session found negotiated give_up fail_and_close_session
    record_path_failure_event noted_closed persist save
closes s = refl

cycle_runs : reconcile_sessions plane world ≡ (ok report, after (refreshed plane daemon))
unfolding reconcile_sessions reconcile_all ◌>>=◌
cycle_runs =
    ap (next λ s. reads runtime.active_sessions >>= cycle_over plane s) ready
    ∙ closes (refreshed plane daemon)

reconcile_sessions-Counts_example :
    (listed : List SessionSnapshot) × (runtime.active_sessions sessions ≡ ok listed)
    × Counts listed report
reconcile_sessions-Counts_example =
    reconcile_sessions-Counts plane (λ ss. Unit {0}) answers world (after (refreshed plane daemon))
      report tt cycle_runs
