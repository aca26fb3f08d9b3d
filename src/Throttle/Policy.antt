-- ===== src/Throttle/Policy.antt =====
-- internal/auththrottle/policy.go, and the transitions and the status of internal/auththrottle/guard.go.
use byos.Prelude.{ℕ, ◌*◌, Bool, List, ◌==◌, ◌||◌, not, ltb, ◌&&◌}
use byos.Time.{second, minute}

pub record Policy : Type 0 where
  pub failure_reset_after : ℕ
  pub cooldown_after_three : ℕ
  pub cooldown_after_four : ℕ
  pub lock_after_five : ℕ
  pub global_window : ℕ
  pub global_source_lock_limit : ℕ
  pub global_block_duration : ℕ
  pub source_retention : ℕ

abbrev pub default_policy : Policy
default_policy = record {
  failure_reset_after = 15 * minute;
  cooldown_after_three = 5 * second;
  cooldown_after_four = 30 * second;
  lock_after_five = 15 * minute;
  global_window = 15 * minute;
  global_source_lock_limit = 25;
  global_block_duration = minute;
  source_retention = 24 * 60 * minute;
}

-- `Validate` gives no error.
unfoldable pub is_valid : Policy → Bool
is_valid p =
    not (
      p.failure_reset_after == 0
      || (p.cooldown_after_three == 0
          || (p.cooldown_after_four == 0
              || (p.lock_after_five == 0
                  || (p.global_window == 0
                      || (p.global_block_duration == 0 || p.source_retention == 0))))))
    && not (ltb p.global_source_lock_limit 2)

pub data TransitionKind : Type 0 where
  source_cooldown source_locked source_unlocked source_reset global_armed global_released :
      TransitionKind

pub record Transition : Type 0 where
  pub kind : TransitionKind
  pub failure_count : ℕ
  pub prior_failure_count : ℕ
  pub blocked_until : ℕ
  pub global_source_locks : ℕ

pub record Status : Type 0 where
  pub blocked_until : ℕ
  pub transitions : List Transition

-- A transition with the zero values.
abbrev pub transition : TransitionKind → Transition
transition kind = record {
  kind = kind;
  failure_count = 0;
  prior_failure_count = 0;
  blocked_until = 0;
  global_source_locks = 0;
}
