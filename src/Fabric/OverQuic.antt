-- ===== src/Fabric/OverQuic.antt =====
-- `LocalControlPlane` of crates/fabric/src/lib.rs over the transport adapter of crates/quic/src/lib.rs,
-- as cmd/quipd/src/main.rs runs it.
use quipnet.Base.{ℕ, some, List, [], Bytes, ◌≡◌, arith, inl, inr, Option-cases, ok, subst}
use quipnet.Base.Maps.{get}
use quipnet.Crypto.{Primitives, IdentityKeypair}
use quipnet.Identity.{SessionCredentialUnsigned}
use quipnet.Model.{NetworkId}
use quipnet.Transport.{SessionSnapshot}
use quipnet.Quic.{with_identity}
use quipnet.Quic.{RelayControl, Draw}
use quipnet.Quic.{snapshot_of}
use quipnet.Quic.Registry.{Holds}
use quipnet.Quic.Runs.{
  connects, migrates, closes, updates, bars, unbars, marks_listener, notes, step, run,
}
use quipnet.Quic.Histories.{step-Holds, run-Holds}
use quipnet.Quic.Lifecycle.{Node, draw, now, target, active_sessions, quic_transport}
use quipnet.Fabric.Files.{Disk}
use quipnet.Fabric.Exec.{World}
use quipnet.Fabric.Plane.{Plane}
use quipnet.Fabric.Sessions.{SessionReconcileReport}
use quipnet.Fabric.Sessions.Reconcile.{reconcile_sessions}
use quipnet.Fabric.Keeping.{Keeps}
use quipnet.Fabric.Methods.{Method, run_methods, run_methods-Preserves}
use quipnet.Fabric.Cycles.Reports.{Counts}
use quipnet.Fabric.Cycles.{reconcile_sessions-Counts}
use quipnet.Fabric.Cycles.Rounds.{Answers}

module _ (c : Primitives) (json : SessionCredentialUnsigned → Bytes) {W : Type 0}
    (relays : RelayControl W) where
  abbrev pub IsWell : Node W → Type 0
  IsWell n = Holds n.adapter

  pub quic_transport-Keeps :
      {F : Type 0} (p : Plane F (Node W))
      → Keeps (record p { transport = quic_transport c json relays }) (λ _. Unit {0}) IsWell
  unfolding quic_transport step
  quic_transport-Keeps p = record {
    connects =
        λ route n h i. step-Holds c json relays (n.relays, n.adapter) (connects (draw n) route) i;
    updates = λ id state closure reason n i.
        step-Holds c json relays (n.relays, n.adapter) (updates (now n) id state closure reason) i;
    suppresses = λ peer protocol class reason n i.
        step-Holds c json relays (n.relays, n.adapter)
          (bars (now n) (target peer protocol class) reason) i;
    clears = λ peer protocol class n i.
        step-Holds c json relays (n.relays, n.adapter) (unbars (target peer protocol class)) i;
    marks_listener = λ id state reason n i.
        step-Holds c json relays (n.relays, n.adapter) (marks_listener id state reason) i;
    notes = λ e n i. step-Holds c json relays (n.relays, n.adapter) (notes e) i;
    migrates = λ s route n h i.
        step-Holds c json relays (n.relays, n.adapter) (migrates (draw n) s.session_id route) i;
    closes = λ s n i. step-Holds c json relays (n.relays, n.adapter) (closes (now n) s) i;
  }

  quic_transport-named :
      (id : Bytes) (n : Node W) (s : SessionSnapshot)
      → IsWell n
      → (quic_transport c json relays).session_snapshot id n ≡ ok (some s)
      → s.session_id ≡ id
  unfolding quic_transport snapshot_of
  quic_transport-named id n s i e = elim (Option-cases (get id n.adapter.runtime_sessions)) [
    | inl g ↦ ground (arith, g)
    | inr (r, g) ↦ ground (arith, g, i.keyed id r g)
  ]

  quic_transport-Answers :
      {F : Type 0} (p : Plane F (Node W))
      → Answers (record p { transport = quic_transport c json relays }) IsWell
  quic_transport-Answers p = record { keeps = quic_transport-Keeps p; named = quic_transport-named }

  -- A node that has just been made, with the disk of its daemon.
  abbrev pub fresh : Disk → W → (ℕ → Draw) → Bytes → NetworkId → IdentityKeypair → World (Node W)
  fresh disk w draws instance_id network identity = record {
    disk = disk;
    runtime = record {
      relays = w;
      adapter = with_identity instance_id network identity;
      draws = draws;
      drawn = 0;
    };
  }

  -- Whatever methods the daemon of a fresh node runs over its QUIC adapter, with whatever files,
  -- relays, times and random draws, and whether the methods succeed or fail: every session of the
  -- adapter stands under its own id, its terminal ledger has 32 sessions at most, all closed and of
  -- different ids, and its event buffer has 256 events at most.
  pub run_methods-Holds :
      {F : Type 0} (p : Plane F (Node W)) (disk : Disk) (w : W) (draws : ℕ → Draw)
      (instance_id : Bytes) (network : NetworkId) (identity : IdentityKeypair) (ms : List Method)
      → Holds
          (run_methods
            (record p { transport = quic_transport c json relays })
            ms
            (fresh disk w draws instance_id network identity)).runtime.adapter
  unfolding run
  run_methods-Holds p disk w draws instance_id network identity ms =
      run_methods-Preserves (record p { transport = quic_transport c json relays }) IsWell
        (quic_transport-Keeps p) ms (fresh disk w draws instance_id network identity)
        (run-Holds c json relays w instance_id network identity [])

  -- After such a run, a cycle of reconciliation that succeeds reports one entry for each session of the
  -- adapter, in their order, and its counters are the numbers of entries with their dispositions.
  pub reconcile_sessions-over_quic :
      {F : Type 0} (p : Plane F (Node W)) (disk : Disk) (w : W) (draws : ℕ → Draw)
      (instance_id : Bytes) (network : NetworkId) (identity : IdentityKeypair) (ms : List Method)
      (after : World (Node W)) (report : SessionReconcileReport)
      → let plane = record p { transport = quic_transport c json relays } in
        let held = run_methods plane ms (fresh disk w draws instance_id network identity) in
        reconcile_sessions plane held ≡ (ok report, after)
        → Counts (active_sessions held.runtime.adapter) report
  unfolding quic_transport
  reconcile_sessions-over_quic p disk w draws instance_id network identity ms after report h =
      let plane = record p { transport = quic_transport c json relays } in
      let held = run_methods plane ms (fresh disk w draws instance_id network identity) in
      let (sessions, listed, counts) =
        reconcile_sessions-Counts plane IsWell (quic_transport-Answers p) held after report
          (run_methods-Holds p disk w draws instance_id network identity ms) h in
      subst (λ l. Counts l report) (ground (arith, listed)) counts
