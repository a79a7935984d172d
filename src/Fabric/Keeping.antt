-- ===== src/Fabric/Keeping.antt =====
-- What the methods of `LocalControlPlane` in crates/fabric/src/lib.rs do to their transport: whatever
-- every operation of a transport keeps true of its state, they keep.
pub mod Sessions
pub mod Authority
use quipnet.Base.{Bool, true, false, if◌then◌else◌, Option, some, Bytes, ◌≡◌, refl, Result, ok, err}
use quipnet.Model.{PeerId, ProtocolId, TrafficClass}
use quipnet.Transport.{
  SessionSnapshot, RoutePlan, RuntimeSessionState, SessionClosureReason, RuntimeListenerState,
  RuntimeEvent, TransportError,
}
use quipnet.Fabric.State.{DaemonState, DaemonStateError}
use quipnet.Fabric.Policies.{explain_policy}
use quipnet.Fabric.Plane.{Plane, plan}
use quipnet.Fabric.Exec.{World, Exec, pure, fail, lift, reads, calls, tries, next, ◌>>=◌}

-- What holds of every route that a state plans to a peer, when its policy allows the protocol with it.
abbrev pub Permits : {F S : Type 0} → Plane F S → (RoutePlan → Type 0) → DaemonState F → Type 0
Permits p P s =
    (peer : PeerId) (protocol : ProtocolId) (class : TrafficClass) (route : RoutePlan)
    → (explain_policy p.crypto s peer protocol).allowed ≡ true
    → plan p s peer (some protocol) class ≡ ok route
    → P route

-- The operations that change the state of the transport keep the predicate `I` on it, where the routes
-- that are connected or migrated to satisfy `P`.
pub record Keeps {F S : Type 0} (p : Plane F S) (P : RoutePlan → Type 0) (I : S → Type 0)
    : Type 0 where
  pub connects : (route : RoutePlan) (r : S) → P route → I r → I (p.transport.connect route r).1
  pub updates :
      (id : Bytes) (state : RuntimeSessionState) (closure : Option SessionClosureReason)
      (reason : Option Bytes) (r : S)
      → I r
      → I (p.transport.update_session_state id state closure reason r).1
  pub suppresses :
      (peer : PeerId) (protocol : Option ProtocolId) (class : TrafficClass) (reason : Bytes) (r : S)
      → I r
      → I (p.transport.suppress_reconnect peer protocol class reason r).1
  pub clears :
      (peer : PeerId) (protocol : Option ProtocolId) (class : TrafficClass) (r : S)
      → I r
      → I (p.transport.clear_reconnect_suppression peer protocol class r).1
  pub marks_listener :
      (id : Bytes) (state : RuntimeListenerState) (reason : Option Bytes) (r : S)
      → I r
      → I (p.transport.update_listener_state id state reason r).1
  pub notes : (e : RuntimeEvent) (r : S) → I r → I (p.transport.record_runtime_event e r).1
  pub migrates :
      (s : SessionSnapshot) (route : RoutePlan) (r : S)
      → P route
      → I r
      → I (p.transport.migrate s route r).1
  pub closes : (s : SessionSnapshot) (r : S) → I r → I (p.transport.close_session s r).1

module _ {S : Type 0} (I : S → Type 0) where
  -- The predicate holds after the method, whether it succeeds or not, if it held before.
  abbrev pub Preserves : {A : Type 0} → Exec S A → Type 0
  Preserves m = (w : World S) → I w.runtime → I (m w).1.runtime

  pub bind-Preserves :
      {A B : Type 0} (m : Exec S A) (f : A → Exec S B)
      → Preserves m
      → ((a : A) → Preserves (f a))
      → Preserves (m >>= f)
  unfolding ◌>>=◌
  bind-Preserves {A} {B} m f h k w i = go (m w) (h w i)
    where
      go : (r : Result DaemonStateError A × World S) → I r.1.runtime → I (next f r).1.runtime
      go (ok a, v) j = k a v j
      go (err e, v) j = j

  pub if-Preserves :
      {A : Type 0} (b : Bool) (m n : Exec S A)
      → (b ≡ true → Preserves m)
      → Preserves n
      → Preserves (if b then m else n)
  if-Preserves true m n h k = h refl
  if-Preserves false m n h k = k

  pub lift-Preserves :
      {A B : Type 0} (r : Result DaemonStateError A) (f : A → Exec S B)
      → ((a : A) → r ≡ ok a → Preserves (f a))
      → Preserves (lift r >>= f)
  unfolding ◌>>=◌
  lift-Preserves (ok a) f h = h a refl
  lift-Preserves (err e) f h = λ w i. i

  -- The same with a property of the result, if there is one.
  abbrev pub IfOk : {A : Type 0} → (A → Type 0) → Result DaemonStateError A → Type 0
  IfOk Q (ok a) = Q a
  IfOk Q (err e) = Unit {0}

  abbrev pub Yields : {A : Type 0} → (A → Type 0) → Exec S A → Type 0
  Yields Q m = (w : World S) → I w.runtime → I (m w).1.runtime × IfOk Q (m w).0

  pub bind-Yields :
      {A B : Type 0} (Q : B → Type 0) (m : Exec S A) (f : A → Exec S B)
      → Preserves m
      → ((a : A) → Yields Q (f a))
      → Yields Q (m >>= f)
  unfolding ◌>>=◌
  bind-Yields {A} {B} Q m f h k w i = go (m w) (h w i)
    where
      go :
          (r : Result DaemonStateError A × World S)
          → I r.1.runtime
          → I (next f r).1.runtime × IfOk Q (next f r).0
      go (ok a, v) j = k a v j
      go (err e, v) j = (j, tt)

  pub Yields-bind :
      {A B : Type 0} (Q : A → Type 0) (m : Exec S A) (f : A → Exec S B)
      → Yields Q m
      → ((a : A) → Q a → Preserves (f a))
      → Preserves (m >>= f)
  unfolding ◌>>=◌
  Yields-bind {A} {B} Q m f h k w i = go (m w) (h w i)
    where
      go :
          (r : Result DaemonStateError A × World S)
          → I r.1.runtime × IfOk Q r.0
          → I (next f r).1.runtime
      go (ok a, v) j = k a j.1 v j.0
      go (err e, v) j = j.0

  pub if-Yields :
      {A : Type 0} (Q : A → Type 0) (b : Bool) (m n : Exec S A)
      → (b ≡ true → Yields Q m)
      → Yields Q n
      → Yields Q (if b then m else n)
  if-Yields Q true m n h k = h refl
  if-Yields Q false m n h k = k

  -- What comes first need not keep the predicate at every state of the world.
  pub first-Preserves :
      {A B : Type 0} (m : Exec S A) (f : A → Exec S B) (w : World S)
      → I (m w).1.runtime
      → ((a : A) (v : World S) → m w ≡ (ok a, v) → Preserves (f a))
      → I ((m >>= f) w).1.runtime
  unfolding ◌>>=◌
  first-Preserves {A} {B} m f w i k = go (m w) refl i
    where
      go :
          (r : Result DaemonStateError A × World S)
          → m w ≡ r
          → I r.1.runtime
          → I (next f r).1.runtime
      go (ok a, v) e j = k a v e v j
      go (err x, v) e j = j
