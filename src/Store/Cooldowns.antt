-- ===== src/Store/Cooldowns.antt =====
-- internal/store/cooldowns.go: the table account_model_states, as the list of its rows, with the
-- primary key (account_id, model) and the foreign key of account_id (migrations/001_initial.sql):
-- `is_account` says which accounts there are. The rows of an account are deleted with it, so a row that
-- a statement would change instead of inserting always has its account. No other failure of the database
-- is modelled.
pub mod Rows
pub mod Backoff
pub mod Lookup
pub mod Invariant
mod Tests
use byos.Prelude.{
  ℕ, suc, ◌+◌, String, Bool, false, zero, ◌==◌, Option, none, some, List, [], ◌∷◌, ltb, leb, str_eq,
  if◌then◌else◌, ◌&&◌, min,
}
use byos.Time.{unix, minute, nullable_unix, time_ptr}
use byos.Store.Accounts.{Error, no_rows, foreign_key, Result, ok, err}
use Rows.{State, find_row, update_row, upsert}

pub record Cooldown : Type 0 where
  pub account_id : String
  pub model : String
  pub last_error_class : String
  pub until : Option ℕ
  pub backoff_level : ℕ
  pub last_error_at : Option ℕ

-- The columns as `Scan` reads them.
abbrev pub scan : State → Cooldown
scan r = record {
  account_id = r.account_id;
  model = r.model;
  last_error_class = r.last_error_class;
  until = time_ptr r.cooldown_until;
  backoff_level = r.backoff_level;
  last_error_at = time_ptr r.last_error_at;
}

abbrev pub scan_found : Option State → Option Cooldown
scan_found none = none
scan_found (some r) = some (scan r)

unfoldable pub write : Cooldown → List State → List State
write value = upsert value.account_id value.model new (λ r. record r {
  cooldown_until = nullable_unix value.until;
  backoff_level = value.backoff_level;
  last_error_class = value.last_error_class;
  last_error_at = nullable_unix value.last_error_at;
})
  where
    new : State
    new = record {
      account_id = value.account_id;
      model = value.model;
      cooldown_until = nullable_unix value.until;
      backoff_level = value.backoff_level;
      last_error_class = value.last_error_class;
      last_error_at = nullable_unix value.last_error_at;
    }

-- `Put`.
unfoldable pub put : (String → Bool) → Cooldown → List State → Option Error × List State
put is_account value rows =
    if is_account value.account_id then (none, write value rows) else (some foreign_key, rows)

-- `cooldown_until IS NOT NULL AND cooldown_until<=?`.
abbrev pub is_expired : Option ℕ → ℕ → Bool
is_expired none now = false
is_expired (some until) now = leb until now

-- `cooldown_until IS NOT NULL AND cooldown_until>?`.
abbrev pub is_active : Option ℕ → ℕ → Bool
is_active none now = false
is_active (some until) now = ltb now until

-- The SET clause of the updates that drop an expired cooldown.
abbrev pub expire : State → State
expire r = record r {
  cooldown_until = none;
  backoff_level = if str_eq r.last_error_class "rate_limit" then r.backoff_level else 0;
}

unfoldable pub expire_if_due : ℕ → State → State
expire_if_due now r = if is_expired r.cooldown_until now then expire r else r

-- `none` is sql.ErrNoRows.
unfoldable pub get : String → String → ℕ → List State → Option Cooldown × List State
unfolding expire_if_due
get account_id model now rows =
    let rows' = update_row account_id model (expire_if_due (unix now)) rows in
    (scan_found (find_row account_id model rows'), rows')

unfoldable pub write_ready : String → String → List State → List State
write_ready account_id model =
    upsert account_id model new (λ r. record r { cooldown_until = none; backoff_level = 0 })
  where
    new : State
    new = record {
      account_id = account_id;
      model = model;
      cooldown_until = none;
      backoff_level = 0;
      last_error_class = "";
      last_error_at = none;
    }

-- `Ready`.
unfoldable pub ready : (String → Bool) → String → String → List State → Option Error × List State
ready is_account account_id model rows =
    if is_account account_id
    then (none, write_ready account_id model rows)
    else (some foreign_key, rows)

-- The seconds that follow a rate limit at a backoff level.
abbrev pub backoff_seconds : ℕ → ℕ
backoff_seconds level =
    if leb level 0
    then 60
    else if level == 1
    then 120
    else if level == 2
    then 240
    else if level == 3
    then 480
    else if level == 4
    then 960
    else 1800

unfoldable pub advance_row : String → ℕ → State → State
advance_row error_class now r = record r {
  backoff_level =
      if is_active r.cooldown_until now then r.backoff_level else min (r.backoff_level + 1) 6;
  cooldown_until =
      if is_active r.cooldown_until now
      then r.cooldown_until
      else some (now + backoff_seconds r.backoff_level);
  last_error_class = error_class;
  last_error_at = some now;
}

unfoldable pub write_rate_limit : String → String → String → ℕ → List State → List State
unfolding advance_row
write_rate_limit account_id model error_class now =
    upsert account_id model new (advance_row error_class (unix now))
  where
    new : State
    new = record {
      account_id = account_id;
      model = model;
      cooldown_until = some (unix (now + minute));
      backoff_level = 1;
      last_error_class = error_class;
      last_error_at = some (unix now);
    }

returned : Option Cooldown → Result Cooldown
returned none = err no_rows
returned (some c) = ok c

-- `AdvanceRateLimit`; RETURNING gives the row as it is written.
unfoldable pub advance_rate_limit :
    (String → Bool) → String → String → String → ℕ → List State → Result Cooldown × List State
unfolding returned
advance_rate_limit is_account account_id model error_class now rows =
    let rows' = write_rate_limit account_id model error_class now rows in
    if is_account account_id
    then (returned (scan_found (find_row account_id model rows')), rows')
    else (err foreign_key, rows)

abbrev pub cleanup_batch_size : ℕ
cleanup_batch_size = 500

-- The rows that the LIMIT leaves are taken in the order of the table; the number that changed comes
-- with them.
pub promote : ℕ → ℕ → List State → ℕ × List State
promote limit now [] = (0, [])
promote zero now (r ∷ rows) = (0, r ∷ rows)
promote (suc limit) now (r ∷ rows) =
    let (n, rows') = promote limit now rows in
    let (m, rows'') = promote (suc limit) now rows in
    if is_expired r.cooldown_until now then (suc n, expire r ∷ rows') else (m, r ∷ rows'')

unfoldable pub promote_expired : ℕ → List State → ℕ × List State
unfolding promote
promote_expired now = promote cleanup_batch_size (unix now)
