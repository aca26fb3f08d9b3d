-- ===== src/Throttle/Store.antt =====
-- internal/store/admin_auth_throttle.go: the tables admin_auth_sources and admin_auth_global. A hash is a
-- string, and each method is one transaction that takes effect.
pub mod Rows
pub mod Check
use byos.Prelude.{
  ℕ, zero, suc, ◌+◌, ◌*◌, String, Bool, true, false, not, Option, none, some, List, [], ◌∷◌, ◌++◌,
  ltb, leb, ◌==◌, ◌&&◌, ◌||◌, str_eq, if◌then◌else◌,
}
use byos.Time.{unix, of_unix, nullable_unix, second}
use byos.Throttle.Policy.{
  Policy, TransitionKind, Transition, transition, Status, source_cooldown, source_locked,
  source_unlocked, source_reset, global_armed, global_released,
}
use byos.Store.Cooldowns.{cleanup_batch_size}
use Rows.{Source, find_source, delete_source, upsert}

pub record Global : Type 0 where
  pub window_started_at : Option ℕ
  pub source_locks : ℕ
  pub blocked_until : Option ℕ
  pub updated_at : ℕ

pub record Tables : Type 0 where
  pub sources : List Source
  -- The row with the ID 1.
  pub global : Option Global

-- `unixTime`: 0 is the zero time.
abbrev pub unix_time : Option ℕ → ℕ
unix_time none = 0
unix_time (some s) = of_unix s

-- `at.Valid && at.Int64 <= now.Add(-d).Unix()`: the whole second of `now - d`, which may lie before 1970,
-- is at least `at` exactly if `at` seconds and `d` are at most `now`.
abbrev pub is_older : Option ℕ → ℕ → ℕ → Bool
is_older none d now = false
is_older (some at) d now = leb (at * second + d) now

check_row : ℕ → Policy → String → Tables → Source → Status × Tables
check_row now policy hash t r =
    if ltb now (unix_time r.blocked_until)
    then (record { blocked_until = unix_time r.blocked_until; transitions = [] }, t)
    else if r.failure_count == 5
    then (
      record {
        blocked_until = 0;
        transitions =
            record (transition source_unlocked) { prior_failure_count = r.failure_count } ∷ [];
      },
      record t { sources = delete_source hash t.sources },
    )
    else (
      record { blocked_until = 0; transitions = [] },
      if is_older r.last_failure_at policy.failure_reset_after now
          then record t { sources = delete_source hash t.sources }
          else t,
    )

check_found : ℕ → Policy → String → Tables → Option Source → Status × Tables
unfolding check_row
check_found now policy hash t none = (record { blocked_until = 0; transitions = [] }, t)
check_found now policy hash t (some r) = check_row now policy hash t r

-- The first half of `Check`.
unfoldable pub check_source : String → ℕ → Policy → Tables → Status × Tables
unfolding check_found
check_source hash now policy t = check_found now policy hash t (find_source hash t.sources)

abbrev pub is_set : Option ℕ → Bool
is_set none = false
is_set (some x) = true

check_guard : ℕ → Policy → Status → Tables → Option Global → Status × Tables
check_guard now policy status t none = (status, t)
check_guard now policy status t (some g) =
    if ltb now (unix_time g.blocked_until)
    then (
      (if ltb status.blocked_until (unix_time g.blocked_until)
          then record status { blocked_until = unix_time g.blocked_until }
          else status),
      t,
    )
    else if is_set g.blocked_until
    then (
      record status { transitions = status.transitions ++ (transition global_released ∷ []) },
      record t {
        global = some (record {
          window_started_at = some (unix now);
          source_locks = 0;
          blocked_until = none;
          updated_at = unix now;
        });
      },
    )
    else (
      status,
      if is_older g.window_started_at policy.global_window now
          then record t {
            global = some (record g {
              window_started_at = some (unix now);
              source_locks = 0;
              updated_at = unix now;
            });
          }
          else t,
    )

unfoldable pub check_global : ℕ → Policy → Status → Tables → Status × Tables
unfolding check_guard
check_global now policy status t = check_guard now policy status t t.global

unfoldable pub check : String → ℕ → Policy → Tables → Status × Tables
unfolding check_source check_global
check hash now policy t =
    let (status, t') = check_source hash now policy t in check_global now policy status t'

-- The failure count before this failure.
unfoldable pub prior_count : ℕ → Policy → Option Source → ℕ
prior_count now policy none = 0
prior_count now policy (some r) =
    if r.failure_count == 5 || is_older r.last_failure_at policy.failure_reset_after now
    then 0
    else r.failure_count

-- The switch on the count.
unfoldable pub block_after : ℕ → Policy → ℕ → Option ℕ × List Transition
block_after now policy count =
    if count == 3
    then blocks source_cooldown (now + policy.cooldown_after_three)
    else if count == 4
    then blocks source_cooldown (now + policy.cooldown_after_four)
    else if count == 5
    then blocks source_locked (now + policy.lock_after_five)
    else (none, [])
  where
    blocks : TransitionKind → ℕ → Option ℕ × List Transition
    blocks kind until =
        (some until, record (transition kind) { failure_count = count; blocked_until = until } ∷ [])

-- The window and the number of locks in it, before this lock.
unfoldable pub prior_locks : ℕ → Policy → Option Global → ℕ × ℕ
prior_locks now policy none = (unix now, 0)
prior_locks now policy (some g) = elim g.window_started_at [
  | none ↦ (unix now, 0)
  | some started ↦
      if is_older (some started) policy.global_window now || is_older g.blocked_until 0 now
      then (unix now, 0)
      else (started, g.source_locks)
]

unfoldable pub record_source_lock : ℕ → Policy → Option Global → List Transition × Global
unfolding prior_locks
record_source_lock now policy o =
    let (started, locks) = prior_locks now policy o in
    let until = now + policy.global_block_duration in
    let row : Global = record {
      window_started_at = some started;
      source_locks = suc locks;
      blocked_until = none;
      updated_at = unix now;
    } in
    if leb policy.global_source_lock_limit (suc locks)
    then (
      record (transition global_armed) { blocked_until = until; global_source_locks = suc locks }
          ∷ [],
      record row { blocked_until = some (unix until) },
    )
    else ([], row)

unfoldable pub record_failure : String → ℕ → Policy → Tables → List Transition × Tables
unfolding prior_count block_after record_source_lock
record_failure hash now policy t =
    let count = suc (prior_count now policy (find_source hash t.sources)) in
    let (until, transitions) = block_after now policy count in
    let sources =
      upsert
        (record {
          source_hash = hash;
          failure_count = count;
          blocked_until = nullable_unix until;
          last_failure_at = some (unix now);
          updated_at = unix now;
        })
        t.sources in
    let (armed, global) = record_source_lock now policy t.global in
    if count == 5
    then (transitions ++ armed, record { sources = sources; global = some global })
    else (transitions, record t { sources = sources })

reset_found : Option Source → Option Transition
reset_found none = none
reset_found (some r) =
    some (record (transition source_reset) { prior_failure_count = r.failure_count })

-- `none` where nothing was deleted.
unfoldable pub reset_source : String → Tables → Option Transition × Tables
unfolding reset_found
reset_source hash t =
    (reset_found (find_source hash t.sources), record t { sources = delete_source hash t.sources })

-- The rows that the LIMIT leaves are taken in the order of the table.
pub clean : ℕ → ℕ → List Source → ℕ × List Source
clean limit before [] = (0, [])
clean zero before (r ∷ rows) = (0, r ∷ rows)
clean (suc limit) before (r ∷ rows) =
    let (n, rows') = clean limit before rows in
    let (m, rows'') = clean (suc limit) before rows in
    if leb r.updated_at before then (suc n, rows') else (m, r ∷ rows'')

unfoldable pub cleanup : ℕ → Tables → ℕ × Tables
unfolding clean
cleanup before t =
    let (n, sources) = clean cleanup_batch_size (unix before) t.sources in
    (n, record t { sources = sources })
