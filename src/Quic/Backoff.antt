-- ===== src/Quic/Backoff.antt =====
-- The number, the state and the time of reconnect attempts after any number of failures.
use quipnet.Base.{
  ℕ, ◌+◌, ◌-◌, ◌^◌, ◌<◌, ◌≡◌, refl, ap, ◌∙◌, Bool, true, none, some, List, [], ◌∷◌, ◌++◌, find,
  length, min, u32_mod, u64_mod, sat_add_u64, sat_mul_u64, arith, bytes_eq, option_eq, ==_refl,
}
use quipnet.Routing.{class_eq}
use quipnet.Crypto.{Primitives}
use quipnet.Transport.{RuntimeReconnectAttempt}
use quipnet.Quic.State.{Adapter, emit}
use quipnet.Quic.Reconnect.{
  Target, is_for, Schedule, attempt_state, backoff_secs, attempt_again, first_attempt, update_first,
  schedule, schedule_reconnect,
}

-- The attempt for a target that fails for the time `count` at the time `now`: it has failed for
-- good once `count` reaches the limit, and else waits base * 2^(count - 1) seconds, where the
-- exponent is 16 at most and the wait is `max_backoff_secs` at most.
abbrev pub attempt_number : ℕ → Target → Schedule → ℕ → RuntimeReconnectAttempt
attempt_number now t s count = record {
  peer = t.peer;
  protocol = t.protocol;
  class = t.class;
  state = attempt_state count s.max_attempts;
  reason = s.reason;
  attempt_count = count;
  last_attempt_unix_secs = now;
  next_attempt_unix_secs =
      sat_add_u64 now
        (min (sat_mul_u64 s.base_backoff_secs (2 ^ min (count - 1) 16)) s.max_backoff_secs);
  max_attempts = s.max_attempts;
}

pub find-append_none {ℓ} :
    {A : Type ℓ} (p : A → Bool) (xs : List A) (a : A)
    → find p xs ≡ none
    → p a ≡ true
    → find p (xs ++ a ∷ []) ≡ some a
find-append_none p [] a h t = ground arith
find-append_none p (x ∷ xs) a h t = ground (arith, find-append_none p xs a)

find-update_first {ℓ} :
    {A : Type ℓ} (p : A → Bool) (f : A → A) (xs : List A) (a : A)
    → find p xs ≡ some a
    → p (f a) ≡ true
    → find p (update_first p f xs) ≡ some (f a)
unfolding update_first
find-update_first p f [] a h t = cc
find-update_first p f (x ∷ xs) a h t = ground (arith, find-update_first p f xs a)

module _ (t : Target) (s : Schedule) where
  first_attempt_number :
      (now : ℕ) → s.base_backoff_secs < u64_mod → first_attempt now t s ≡ attempt_number now t s 1
  unfolding first_attempt
  first_attempt_number now h = ground arith

  attempt_again_number :
      (now : ℕ) (a : RuntimeReconnectAttempt)
      → is_for t a ≡ true
      → a.attempt_count + 1 < u32_mod
      → attempt_again now s a ≡ attempt_number now t s (a.attempt_count + 1)
  unfolding attempt_again backoff_secs
  attempt_again_number now a m h = ground arith

  is_for_number : (now count : ℕ) → is_for t (attempt_number now t s count) ≡ true
  is_for_number now count = ground (arith, ==_refl t.peer, ==_refl t.protocol, ==_refl t.class)

  -- The first failure: no attempt is known.
  schedule_first :
      (now : ℕ) (l : List RuntimeReconnectAttempt)
      → s.base_backoff_secs < u64_mod
      → find (is_for t) l ≡ none
      → ((schedule now t s l).1 ≡ attempt_number now t s 1)
        × (find (is_for t) (schedule now t s l).0 ≡ some (attempt_number now t s 1))
  unfolding schedule
  schedule_first now l b h =
      rw (h, schedule)
        (rw (first_attempt_number now b)
          (refl, find-append_none (is_for t) l (attempt_number now t s 1) h (is_for_number now 1)))

  -- A failure of an attempt that is known.
  schedule_again :
      (now last count : ℕ) (l : List RuntimeReconnectAttempt)
      → count + 1 < u32_mod
      → find (is_for t) l ≡ some (attempt_number last t s count)
      → ((schedule now t s l).1 ≡ attempt_number now t s (count + 1))
        × (find (is_for t) (schedule now t s l).0 ≡ some (attempt_number now t s (count + 1)))
  unfolding schedule
  schedule_again now last count l b h =
      let again : attempt_again now s (attempt_number last t s count)
          ≡ attempt_number now t s (count + 1) =
        attempt_again_number now (attempt_number last t s count) (is_for_number last count) b in
      rw (h, schedule)
        (
          again,
          find-update_first (is_for t) (attempt_again now s) l (attempt_number last t s count) h
                (ap (is_for t) again ∙ is_for_number now (count + 1))
              ∙ ap some again,
        )

  module _ (c : Primitives) where
    -- A failure changes the attempts as `schedule` says, and answers the attempt.
    schedule_reconnect-schedule :
        (now : ℕ) (a : Adapter)
        → (schedule_reconnect c now t s a).0.reconnect_attempts
          ≡ (schedule now t s a.reconnect_attempts).0
    unfolding schedule_reconnect emit
    schedule_reconnect-schedule now a = ground arith

    schedule_reconnect_answer :
        (now : ℕ) (a : Adapter)
        → (schedule_reconnect c now t s a).1 ≡ (schedule now t s a.reconnect_attempts).1
    unfolding schedule_reconnect
    schedule_reconnect_answer now a = refl

    -- Failures at the given times, the answers left out.
    abbrev pub fail_at : List ℕ → Adapter → Adapter
    fail_at [] a = a
    fail_at (now ∷ nows) a = fail_at nows (schedule_reconnect c now t s a).0

    again_after :
        (last count now : ℕ) (nows : List ℕ) (a : Adapter)
        → count + (length nows + 1) < u32_mod
        → find (is_for t) a.reconnect_attempts ≡ some (attempt_number last t s count)
        → (schedule_reconnect c now t s (fail_at nows a)).1
          ≡ attempt_number now t s (count + (length nows + 1))
    again_after last count now [] a b h =
        schedule_reconnect_answer now a ∙ (schedule_again now last count a.reconnect_attempts b h).0
    again_after last count now (n ∷ nows) a b h =
        let found = schedule_again n last count a.reconnect_attempts (omega arith) h in
        again_after n (count + 1) now nows (schedule_reconnect c n t s a).0 (omega arith)
          (rw (schedule_reconnect-schedule n a) found.1)
        ∙ ap (λ k. attempt_number now t s k) (omega arith)

    -- After `n` failures at given times with no attempt known before, the next failure answers
    -- the attempt of number `n + 1`, for a base wait that fits 64 bits and fewer than 2^32
    -- failures.
    pub schedule_reconnect-attempt_number :
        (now : ℕ) (nows : List ℕ) (a : Adapter)
        → s.base_backoff_secs < u64_mod
        → length nows + 1 < u32_mod
        → find (is_for t) a.reconnect_attempts ≡ none
        → (schedule_reconnect c now t s (fail_at nows a)).1
          ≡ attempt_number now t s (length nows + 1)
    schedule_reconnect-attempt_number now [] a base b h =
        schedule_reconnect_answer now a ∙ (schedule_first now a.reconnect_attempts base h).0
    schedule_reconnect-attempt_number now (n ∷ nows) a base b h =
        let found = schedule_first n a.reconnect_attempts base h in
        again_after n 1 now nows (schedule_reconnect c n t s a).0 (omega arith)
          (rw (schedule_reconnect-schedule n a) found.1)
        ∙ ap (λ k. attempt_number now t s k) (omega arith)
