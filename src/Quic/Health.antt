-- ===== src/Quic/Health.antt =====
-- What the health of the transport adapter says of its reconnects.
use quipnet.Base.{
  ℕ, ◌≤◌, ◌≡◌, ◌↔◌, refl, true, false, Option, none, some, List, [], ◌∷◌, map, min, All, count,
  keep, any, arith, Bool-cases, Memᴰ, inl, inr, subst, ◌⊎◌,
}
use quipnet.Transport.{RuntimeReconnectAttempt, idle}
use quipnet.Quic.State.{Adapter}
use quipnet.Quic.Listeners.{backs_off, has_failed, minimum, reconnect_state, transport_health}

-- An attempt either backs off or has failed.
nothing_left :
    (l : List RuntimeReconnectAttempt) → count backs_off l ≡ 0 → any has_failed l ≡ false → l ≡ []
nothing_left [] h k = refl
nothing_left (r ∷ l) h k = ground (arith, nothing_left l)

-- The transport reports idle reconnects exactly if it has neither a suppression nor an attempt.
pub transport_health_idle :
    (a : Adapter)
    → ((transport_health a).reconnect_state ≡ idle)
      ↔ ((a.reconnect_suppressions ≡ []) × (a.reconnect_attempts ≡ []))
unfolding transport_health reconnect_state
transport_health_idle a =
    (λ h. ground (arith, nothing_left a.reconnect_attempts), λ h. ground arith)

-- The next attempt is a time of one that backs off, and no later than any of them.
pub data Next (l : List RuntimeReconnectAttempt) : Option ℕ → Type 0 where
  never : count backs_off l ≡ 0 → Next l none
  at :
      (r : RuntimeReconnectAttempt)
      → Memᴰ r l
      → backs_off r ≡ true
      → All
          (λ (s : RuntimeReconnectAttempt). r.next_attempt_unix_secs ≤ s.next_attempt_unix_secs)
          (keep backs_off l)
      → Next l (some r.next_attempt_unix_secs)

-- `r` is to be retried no later than any attempt of the list.
abbrev IsSoonest : RuntimeReconnectAttempt → List RuntimeReconnectAttempt → Type 0
IsSoonest r l =
    All (λ (s : RuntimeReconnectAttempt). r.next_attempt_unix_secs ≤ s.next_attempt_unix_secs) l

none_kept : (l : List RuntimeReconnectAttempt) → count backs_off l ≡ 0 → keep backs_off l ≡ []
none_kept [] h = refl
none_kept (r ∷ l) h = ground (arith, none_kept l)

IsSoonest-le :
    (r s : RuntimeReconnectAttempt) (l : List RuntimeReconnectAttempt)
    → r.next_attempt_unix_secs ≤ s.next_attempt_unix_secs
    → IsSoonest s l
    → IsSoonest r l
IsSoonest-le r s [] h k = tt
IsSoonest-le r s (x ∷ l) h k = (omega arith, IsSoonest-le r s l h k.1)

skip :
    (r : RuntimeReconnectAttempt) (l : List RuntimeReconnectAttempt) {o : Option ℕ}
    → backs_off r ≡ false
    → Next l o
    → Next (r ∷ l) o
skip r l f (never h) = never (ground arith)
skip r l f (at s m b h) = at s (Memᴰ.tail m) b (ground arith)

le_or_le : (m n : ℕ) → (m ≤ n) ⊎ (n ≤ m)
le_or_le m n = ground arith

min_left : {m n : ℕ} → m ≤ n → m ≡ min m n
min_left h = omega arith

min_right : {m n : ℕ} → n ≤ m → n ≡ min m n
min_right h = omega arith

join :
    (r : RuntimeReconnectAttempt) (l : List RuntimeReconnectAttempt) {o : Option ℕ}
    → backs_off r ≡ true
    → Next l o
    → Next (r ∷ l) (elim o [
      | none ↦ some r.next_attempt_unix_secs
      | some m ↦ some (min r.next_attempt_unix_secs m)
    ])
join r l t (never h) = at r (Memᴰ.head refl) t (rw t (omega arith, rw (none_kept l h) tt))
join r l t (at s m b h) = elim (le_or_le r.next_attempt_unix_secs s.next_attempt_unix_secs) [
  | inl le ↦
      subst (λ n. Next (r ∷ l) (some n)) (min_left le)
        (at r (Memᴰ.head refl) t (rw t (omega arith, IsSoonest-le r s (keep backs_off l) le h)))
  | inr le ↦ subst (λ n. Next (r ∷ l) (some n)) (min_right le) (at s (Memᴰ.tail m) b (rw t (le, h)))
]

-- The time of the next attempt that the health reports is that of an attempt that backs off, and
-- of no later one; it reports none only if no attempt backs off.
pub transport_health-Next :
    (a : Adapter) → Next a.reconnect_attempts (transport_health a).reconnect_next_attempt_unix_secs
unfolding transport_health minimum
transport_health-Next a = go a.reconnect_attempts
  where
    go :
        (l : List RuntimeReconnectAttempt)
        → Next l (
            minimum
              (map (λ (r : RuntimeReconnectAttempt). r.next_attempt_unix_secs) (keep backs_off l)))
    go [] = never refl
    go (r ∷ l) = elim (Bool-cases (backs_off r)) [
      | inl t ↦ rw t (join r l t (go l))
      | inr f ↦ rw f (skip r l f (go l))
    ]
