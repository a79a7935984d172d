-- ===== src/Fabric/Keeping/Sessions.antt =====
-- The methods of `LocalControlPlane` in crates/fabric/src/lib.rs on sessions keep what the transport
-- keeps.
use quipnet.Base.{
  Option, none, some, List, [], ◌∷◌, Bytes, inl, inr, ◌≡◌, refl, Bool-cases, Result, ok, err,
  Result-cases,
}
use quipnet.Base.Maps.{contains_key}
use quipnet.Model.{PeerId, ProtocolId, TrafficClass, PathKind}
use quipnet.Transport.{
  SessionSnapshot, RoutePlan, RuntimeSessionState, SessionClosureReason, TransportError, active,
  migrating, reconciling, closing, failed,
}
use quipnet.Fabric.State.{
  DaemonState, DaemonStateError, with_active_session, without_session, deny_reason, grants_for_peer,
  is_capability_revoked, path_candidates_for, daemon_peer, relay_announcements,
}
use quipnet.Fabric.Files
use quipnet.Fabric.Policies.{explain_policy, explain_local_protocol_policy, local_rule}
use quipnet.Fabric.Routes.{session_matches_route, route_plan, best_path, relay_part, relay_of}
use quipnet.Fabric.Exec.{World, Exec, next, ◌>>=◌}
use quipnet.Fabric.Plane.{Plane, plan, ensure_state, state_exists, load, save}
use quipnet.Fabric.Sessions.{
  Cycle, mark, record_path_failure_event, fail_and_close_session, existing_session, persist,
  close_session, upgrade_session, realize_best_path,
}
use quipnet.Fabric.Sessions.Reconcile.{
  noted_closed, noted_unchanged, noted_upgraded, give_up, after_migrate, along, under_policy,
  negotiated, found, reconcile_session, reconcile_all, reconcile_sessions,
}
use quipnet.Fabric.Keeping.{
  Permits, Keeps, Preserves, bind-Preserves, if-Preserves, lift-Preserves, Yields, bind-Yields,
  Yields-bind, if-Yields, first-Preserves,
}

module _ {F S : Type 0} (p : Plane F S) (P : RoutePlan → Type 0) (I : S → Type 0)
    (k : Keeps p P I) where
  pub ensure_state-Preserves : Preserves I (ensure_state p)
  unfolding ensure_state state_exists load save ◌>>=◌
  ensure_state-Preserves w i = elim (Bool-cases (contains_key p.config.state_path w.disk)) [
    | inl present ↦ elim (Result-cases (Files.load p.crypto p.serde w.disk p.config.state_path)) [
      | inl (s, l) ↦ rw (present, ensure_state) (rw (l, next) i)
      | inr (e, l) ↦ rw (present, ensure_state) (rw (l, next) i)
    ]
    | inr absent ↦ rw (absent, ensure_state) i
  ]

  pub mark-Preserves :
      (id : Bytes) (state : RuntimeSessionState) (closure : Option SessionClosureReason)
      (reason : Bytes)
      → Preserves I (mark p id state closure reason)
  mark-Preserves id state closure reason =
      λ w i. k.updates id state closure (some reason) w.runtime i

  pub fail_and_close_session-Preserves :
      (s : SessionSnapshot) (closure : SessionClosureReason) (reason : Bytes)
      → Preserves I (fail_and_close_session p s closure reason)
  unfolding fail_and_close_session record_path_failure_event
  fail_and_close_session-Preserves s closure reason =
      bind-Preserves I _ _ (mark-Preserves s.session_id failed (some closure) reason)
        λ _. bind-Preserves I _ _ (λ w i. k.notes _ w.runtime i) λ _. λ w i. k.closes s w.runtime i

  existing_session-Preserves : (id : Bytes) → Preserves I (existing_session p id)
  unfolding existing_session
  existing_session-Preserves id = bind-Preserves I _ _ (λ w i. i) λ _ w i. i

  persist-Preserves : (s : DaemonState F) → Preserves I (persist p s)
  unfolding persist save
  persist-Preserves s = bind-Preserves I _ _ (λ w i. i) λ _ w i. i

  -- What is read at the start permits.
  abbrev pub Starts : World S → Type 0
  Starts w = (s : DaemonState F) (v : World S) → ensure_state p w ≡ (ok s, v) → Permits p P s

  pub started-Preserves :
      {A : Type 0} (f : DaemonState F → Exec S A)
      → ((s : DaemonState F) → Permits p P s → Preserves I (f s))
      → (w : World S) → Starts w
      → I w.runtime
      → I ((ensure_state p >>= f) w).1.runtime
  started-Preserves f h w starts i =
      first-Preserves I (ensure_state p) f w (ensure_state-Preserves w i)
        (λ s v e. h s (starts s v e))

  pub close_session-Preserves : (id : Bytes) → Preserves I (close_session p id)
  unfolding close_session
  close_session-Preserves id = bind-Preserves I _ _ ensure_state-Preserves λ s.
      bind-Preserves I _ _ (existing_session-Preserves id) λ session.
        bind-Preserves I _ _ (mark-Preserves id closing _ _)
          λ _. bind-Preserves I _ _ (λ w i. k.closes session w.runtime i) λ _. persist-Preserves s

  pub upgrade_session-Preserves :
      (id : Bytes) (w : World S) → Starts w → I w.runtime → I (upgrade_session p id w).1.runtime
  unfolding upgrade_session
  upgrade_session-Preserves id = started-Preserves _ λ s permits.
      bind-Preserves I _ _ (existing_session-Preserves id) λ session.
        lift-Preserves I _ _ λ protocol _.
          if-Preserves I (explain_policy p.crypto s session.peer protocol).allowed _ _
            (λ allowed. bind-Preserves I _ _ (mark-Preserves id migrating none _) λ _.
              lift-Preserves I _ _ λ route planned.
                bind-Preserves I _ _
                  (λ w i.
                    k.migrates session route w.runtime
                      (permits session.peer protocol session.class route allowed planned) i)
                  λ moved. bind-Preserves I _ _ (persist-Preserves _) λ _ w i. i)
            (bind-Preserves I _ _ (mark-Preserves id failed _ _) λ _ w i. i)

  pub realize_best_path-Preserves :
      (peer : PeerId) (protocol : ProtocolId) (class : TrafficClass) (w : World S)
      → Starts w
      → I w.runtime
      → I (realize_best_path p peer protocol class w).1.runtime
  unfolding realize_best_path
  realize_best_path-Preserves peer protocol class = started-Preserves _ λ s permits.
      if-Preserves I (explain_policy p.crypto s peer protocol).allowed _ _
        (λ allowed. lift-Preserves I _ _ λ route planned.
          bind-Preserves I _ _
            (λ w i.
              k.connects route w.runtime (permits peer protocol class route allowed planned) i)
            λ session. bind-Preserves I _ _ (persist-Preserves _) λ _ w i. i)
        (λ w i. i)

  -- The state of the cycle still permits.
  abbrev pub Permitting : Cycle F → Type 0
  Permitting cycle = Permits p P cycle.0

  closed-Permitting :
      (cycle : Cycle F) (s : SessionSnapshot) (reason : Bytes)
      → Permitting cycle
      → Permitting (noted_closed p cycle s reason)
  unfolding noted_closed without_session explain_policy deny_reason explain_local_protocol_policy
      local_rule grants_for_peer is_capability_revoked plan route_plan best_path path_candidates_for
      daemon_peer relay_part relay_of relay_announcements
  closed-Permitting cycle s reason h = h

  upgraded-Permitting :
      (cycle : Cycle F) (s migrated : SessionSnapshot) (kind : PathKind) (reason : Bytes)
      → Permitting cycle
      → Permitting (noted_upgraded p cycle s migrated kind reason)
  unfolding noted_upgraded with_active_session explain_policy deny_reason
      explain_local_protocol_policy local_rule grants_for_peer is_capability_revoked plan route_plan
      best_path path_candidates_for daemon_peer relay_part relay_of relay_announcements
  upgraded-Permitting cycle s migrated kind reason h = h

  give_up-Yields :
      (cycle : Cycle F) (s : SessionSnapshot) (closure : SessionClosureReason) (reason : Bytes)
      → Permitting cycle
      → Yields I Permitting (give_up p cycle s closure reason)
  unfolding give_up
  give_up-Yields cycle s closure reason h =
      bind-Yields I Permitting _ _ (fail_and_close_session-Preserves s closure reason)
        λ _ w i. (i, closed-Permitting cycle s reason h)

  after_migrate-Yields :
      (cycle : Cycle F) (s : SessionSnapshot) (kind : PathKind)
      (r : Result TransportError SessionSnapshot)
      → Permitting cycle
      → Yields I Permitting (after_migrate p cycle s kind r)
  unfolding after_migrate
  after_migrate-Yields cycle s kind (ok m) h = λ w i. (i, upgraded-Permitting cycle s m kind [] h)
  after_migrate-Yields cycle s kind (err e) h = give_up-Yields cycle s _ _ h

  along-Yields :
      (cycle : Cycle F) (s : SessionSnapshot) (r : Result DaemonStateError RoutePlan)
      → Permitting cycle
      → ((route : RoutePlan) → r ≡ ok route → P route)
      → Yields I Permitting (along p cycle s r)
  unfolding along noted_unchanged
  along-Yields cycle s (ok route) h k' =
      if-Yields I Permitting (session_matches_route s route) _ _
        (λ _.
          bind-Yields I Permitting _ _ (mark-Preserves s.session_id active none _) λ _ w i. (i, h))
        (bind-Yields I Permitting _ _ (mark-Preserves s.session_id migrating none _) λ _.
          bind-Yields I Permitting _ _ (λ w i. k.migrates s route w.runtime (k' route refl) i)
            λ m. after_migrate-Yields cycle s route.path_kind m h)
  along-Yields cycle s (err e) h k' = go e
    where
      go : (e : DaemonStateError) → Yields I Permitting (along p cycle s (err e))
      go (DaemonStateError.no_route q) = give_up-Yields cycle s _ _ h
      go _ = λ w i. (i, tt)

  negotiated-Yields :
      (cycle : Cycle F) (s : SessionSnapshot) (protocol : Option ProtocolId)
      → Permitting cycle
      → Yields I Permitting (negotiated p cycle s protocol)
  unfolding negotiated under_policy
  negotiated-Yields cycle s none h = give_up-Yields cycle s _ _ h
  negotiated-Yields cycle s (some protocol) h =
      if-Yields I Permitting (explain_policy p.crypto cycle.0 s.peer protocol).allowed _ _
        (λ allowed.
          along-Yields cycle s _ h
            (λ route planned. h s.peer protocol s.class route allowed planned))
        (bind-Yields I Permitting _ _ (mark-Preserves s.session_id closing _ _) λ _.
          bind-Yields I Permitting _ _ (λ w i. k.closes s w.runtime i)
            λ _ w i. (i, closed-Permitting cycle s [] h))

  found-Yields :
      (cycle : Cycle F) (listed : SessionSnapshot) (s : Option SessionSnapshot)
      → Permitting cycle
      → Yields I Permitting (found p cycle listed s)
  unfolding found
  found-Yields cycle listed none h = λ w i. (i, closed-Permitting cycle listed [] h)
  found-Yields cycle listed (some s) h = negotiated-Yields cycle s s.protocol h

  pub reconcile_session-Yields :
      (cycle : Cycle F) (listed : SessionSnapshot)
      → Permitting cycle
      → Yields I Permitting (reconcile_session p cycle listed)
  unfolding reconcile_session
  reconcile_session-Yields cycle listed h =
      bind-Yields I Permitting _ _ (mark-Preserves listed.session_id reconciling none _)
        λ _. bind-Yields I Permitting _ _ (λ w i. i) λ s. found-Yields cycle listed s h

  reconcile_all-Preserves :
      (cycle : Cycle F) (sessions : List SessionSnapshot)
      → Permitting cycle
      → Preserves I (reconcile_all p cycle sessions)
  unfolding reconcile_all
  reconcile_all-Preserves cycle [] h = λ w i. i
  reconcile_all-Preserves cycle (s ∷ sessions) h =
      Yields-bind I Permitting _ _ (reconcile_session-Yields cycle s h)
        λ later j. reconcile_all-Preserves later sessions j

  pub reconcile_sessions-Preserves :
      (w : World S) → Starts w → I w.runtime → I (reconcile_sessions p w).1.runtime
  unfolding reconcile_sessions
  reconcile_sessions-Preserves = started-Preserves _ λ s permits.
      bind-Preserves I _ _ (λ w i. i)
        λ sessions.
          bind-Preserves I _ _ (reconcile_all-Preserves _ sessions permits)
            λ (s, tally). bind-Preserves I _ _ (persist-Preserves s) λ _ w i. i
