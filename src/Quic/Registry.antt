-- ===== src/Quic/Registry.antt =====
-- What every call keeps of the transport adapter's sessions, ledger and events.
use quipnet.Base.{
  ℕ, ◌≤◌, ◌≡◌, refl, sym, ap, ◌∙◌, inl, inr, Bool, false, Option, none, some, List, [], ◌∷◌, ◌++◌,
  Bytes, ◌==◌, ◌!=◌, ltb, find, keep, length, arith, Bool-cases, Option-cases, Result-cases,
  bytes_eq, ==_ne,
}
use quipnet.Base.Maps.{
  Map, get, insert, remove, update, get-insert, get-remove, get-update_self, get-update_ne,
  get-update_absent,
}
use quipnet.Crypto.{Primitives}
use quipnet.Transport.{RuntimeSessionState, closed, SessionClosureReason, RuntimeEvent}
use quipnet.Quic.State.{SessionRecord, Adapter, pop_front_over, emit}
use quipnet.Quic.Plans.{RelayControl}
use quipnet.Quic.Sessions.{
  with_state, update_session_state, record_terminal_session, release, upsert_runtime_session,
}

-- Every session stands under its own id.
abbrev pub IsKeyed : Map SessionRecord → Type 0
IsKeyed m = (id : Bytes) (r : SessionRecord) → get id m ≡ some r → r.snapshot.session_id ≡ id

abbrev pub has_id : Bytes → SessionRecord → Bool
has_id id r = r.snapshot.session_id == id

-- The sessions are closed, and no id is repeated.
abbrev pub IsLedger : List SessionRecord → Type 0
IsLedger [] = Unit {0}
IsLedger (r ∷ l) =
    (r.snapshot.state ≡ closed) × (find (has_id r.snapshot.session_id) l ≡ none) × IsLedger l

pub record IsWellFormed (sessions : Map SessionRecord) (ledger : List SessionRecord)
    (events : List RuntimeEvent) : Type 0 where
  pub keyed : IsKeyed sessions
  pub ledger_closed : IsLedger ledger
  pub ledger_bound : length ledger ≤ 32
  pub events_bound : length events ≤ 256

abbrev pub Holds : Adapter → Type 0
Holds a = IsWellFormed a.runtime_sessions a.terminal_sessions a.runtime_events

length-pop_front_over {ℓ} : {A : Type ℓ} (n : ℕ) (xs : List A) → length (pop_front_over n xs) ≤ n
unfolding pop_front_over
length-pop_front_over n [] = omega arith
length-pop_front_over n (x ∷ xs) = ground (arith, length-pop_front_over n xs)

IsLedger-pop_front_over :
    (n : ℕ) (l : List SessionRecord) → IsLedger l → IsLedger (pop_front_over n l)
unfolding pop_front_over
IsLedger-pop_front_over n [] h = tt
IsLedger-pop_front_over n (r ∷ l) h = elim (Bool-cases (ltb n (length (r ∷ l)))) [
  | inl t ↦ rw t (IsLedger-pop_front_over n l h.2)
  | inr f ↦ rw f h
]

-- A record is found among those that stay under a test only if it is found among all.
find-keep-none {ℓ} :
    {A : Type ℓ} (p q : A → Bool) (l : List A) → find p l ≡ none → find p (keep q l) ≡ none
find-keep-none p q [] h = refl
find-keep-none p q (x ∷ l) h = ground (arith, find-keep-none p q l)

find-snoc_none {ℓ} :
    {A : Type ℓ} (p : A → Bool) (l : List A) (x : A)
    → find p l ≡ none
    → p x ≡ false
    → find p (l ++ x ∷ []) ≡ none
find-snoc_none p [] x h f = ground arith
find-snoc_none p (y ∷ l) x h f = ground (arith, find-snoc_none p l x)

IsLedger-replace :
    (r : SessionRecord) (l : List SessionRecord)
    → r.snapshot.state ≡ closed
    → IsLedger l
    → IsLedger
        (keep (λ (e : SessionRecord). e.snapshot.session_id != r.snapshot.session_id) l ++ r ∷ [])
IsLedger-replace r [] c h = (c, refl, tt)
IsLedger-replace r (x ∷ l) c h = elim (bytes_eq.dec x.snapshot.session_id r.snapshot.session_id) [
  | yes same ↦ ground (arith, IsLedger-replace r l c h.2)
  | no other ↦
      let d = ==_ne x.snapshot.session_id r.snapshot.session_id other in
      rw d (
        h.0,
        find-snoc_none (has_id x.snapshot.session_id)
            (keep (λ (e : SessionRecord). e.snapshot.session_id != r.snapshot.session_id) l) r
            (find-keep-none (has_id x.snapshot.session_id)
              (λ (e : SessionRecord). e.snapshot.session_id != r.snapshot.session_id) l h.1)
            (ground arith),
        IsLedger-replace r l c h.2,
      )
]

-- Other sessions that are keyed may take the place of those of a well-formed adapter.
with_sessions :
    {m n : Map SessionRecord} {ledger : List SessionRecord} {events : List RuntimeEvent}
    → IsKeyed n
    → IsWellFormed m ledger events
    → IsWellFormed n ledger events
with_sessions k w = record {
  keyed = k;
  ledger_closed = w.ledger_closed;
  ledger_bound = w.ledger_bound;
  events_bound = w.events_bound;
}

-- An event changes nothing else and keeps the buffer's bound.
pub emit-Holds : (a : Adapter) (e : RuntimeEvent) → Holds a → Holds (emit a e)
unfolding emit
emit-Holds a e w = record {
  keyed = w.keyed;
  ledger_closed = w.ledger_closed;
  ledger_bound = w.ledger_bound;
  events_bound = length-pop_front_over 256 (a.runtime_events ++ e ∷ []);
}

IsKeyed-insert :
    (r : SessionRecord) (m : Map SessionRecord)
    → IsKeyed m
    → IsKeyed (insert r.snapshot.session_id r m)
IsKeyed-insert r m k id v h = ground (arith, get-insert r.snapshot.session_id id r m, k id v)

IsKeyed-remove : (j : Bytes) (m : Map SessionRecord) → IsKeyed m → IsKeyed (remove j m)
IsKeyed-remove j m k id v h = ground (arith, get-remove j id m, k id v)

IsKeyed-update :
    (j : Bytes) (f : SessionRecord → SessionRecord) (m : Map SessionRecord)
    → ((r : SessionRecord) → (f r).snapshot.session_id ≡ r.snapshot.session_id)
    → IsKeyed m
    → IsKeyed (update j f m)
IsKeyed-update j f m s k id v h = elim (bytes_eq.dec j id) [
  | yes same ↦ elim (Option-cases (get j m)) [
    | inl e ↦ k id v (sym (ap (get id) (get-update_absent j f m e)) ∙ h)
    | inr (r, e) ↦ ground (arith, get-update_self j f r m e, s r, k j r e)
  ]
  | no other ↦ k id v (sym (get-update_ne j f id m other) ∙ h)
]

pub update_session_state-Holds :
    (c : Primitives) (now : ℕ) (a : Adapter) (id : Bytes) (state : RuntimeSessionState)
    (closure_reason : Option SessionClosureReason) (state_reason : Option Bytes)
    → Holds a
    → Holds (update_session_state c now a id state closure_reason state_reason).0
unfolding update_session_state with_state
update_session_state-Holds c now a id state closure_reason state_reason w =
    elim (Option-cases (get id a.runtime_sessions)) [
      | inl e ↦ rw (e, update_session_state) w
      | inr (r, e) ↦
          rw (e, update_session_state)
            (emit-Holds _ _ (
              with_sessions
                (IsKeyed-update id (with_state now state closure_reason state_reason)
                  a.runtime_sessions (λ r. refl) w.keyed)
                w))
    ]

pub record_terminal_session-Holds :
    (r : SessionRecord) (a : Adapter)
    → r.snapshot.state ≡ closed
    → Holds a
    → Holds (record_terminal_session r a)
unfolding record_terminal_session
record_terminal_session-Holds r a c w = record {
  keyed = w.keyed;
  ledger_closed =
      IsLedger-pop_front_over 32 _ (IsLedger-replace r a.terminal_sessions c w.ledger_closed);
  ledger_bound = length-pop_front_over 32 _;
  events_bound = w.events_bound;
}

pub remove-Holds :
    (id : Bytes) (a : Adapter)
    → Holds a
    → Holds (record a { runtime_sessions = remove id a.runtime_sessions })
remove-Holds id a w = with_sessions (IsKeyed-remove id a.runtime_sessions w.keyed) w

module _ (c : Primitives) {W : Type 0} (relays : RelayControl W) where
  pub upsert_runtime_session-Holds :
      (w : W) (a : Adapter) (r : SessionRecord)
      → Holds a
      → Holds (upsert_runtime_session c relays w a r).0.1
  unfolding upsert_runtime_session
  upsert_runtime_session-Holds w a r h =
      let inserted : Holds
          (record a { runtime_sessions = insert r.snapshot.session_id r a.runtime_sessions }) =
        with_sessions (IsKeyed-insert r a.runtime_sessions h.keyed) h in
      elim (Option-cases (get r.snapshot.session_id a.runtime_sessions)) [
        | inl e ↦ rw (e, upsert_runtime_session) (emit-Holds _ _ (emit-Holds _ _ inserted))
        | inr (previous, e) ↦
            rw (e, upsert_runtime_session)
              (elim (Result-cases (release c relays w previous.snapshot r.snapshot).1) [
                | inl (_, f) ↦ rw f (emit-Holds _ _ inserted)
                | inr (_, f) ↦ rw f inserted
              ])
      ]
