-- ===== src/Scheduler.antt =====
-- crates/scheduler/src/lib.rs: how many messages of each traffic class may be in flight.
use quipnet.Base.{ℕ, ◌≡◌, Bool, true, false, Option, some, List, [], ◌∷◌, ◌==◌, find, arith}
use quipnet.Model.{TrafficClass, control, interactive, bulk, background}
use quipnet.Routing.{class_eq}

pub record QueuePolicy : Type 0 where
  pub class : TrafficClass
  pub max_inflight_messages : ℕ
  pub drop_stale : Bool

unfoldable pub default_queue_policies : List QueuePolicy
default_queue_policies =
    record { class = control; max_inflight_messages = 1024; drop_stale = false }
    ∷ record { class = interactive; max_inflight_messages = 4096; drop_stale = true }
    ∷ record { class = bulk; max_inflight_messages = 16_384; drop_stale = false }
    ∷ record { class = background; max_inflight_messages = 2048; drop_stale = false }
    ∷ []

-- Without a policy of the class the program panics, `none`.
unfoldable pub policy_for : TrafficClass → Option QueuePolicy
unfolding default_queue_policies
policy_for class = find (λ policy. policy.class == class) default_queue_policies

-- Every class has a queue policy: the `expect` of `policy_for` never fails.
abbrev limit_of : TrafficClass → ℕ
limit_of control = 1024
limit_of interactive = 4096
limit_of bulk = 16_384
limit_of background = 2048

abbrev stale_of : TrafficClass → Bool
stale_of interactive = true
stale_of _ = false

pub policy_for-some :
    (class : TrafficClass)
    → policy_for class
      ≡ some (record {
        class = class;
        max_inflight_messages = limit_of class;
        drop_stale = stale_of class;
      })
unfolding policy_for
policy_for-some control = ground arith
policy_for-some interactive = ground arith
policy_for-some bulk = ground arith
policy_for-some background = ground arith
