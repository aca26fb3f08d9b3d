-- ===== src/Routing/Cooldown.antt =====
-- internal/routing/cooldown.go: what a classified failure does to the account and its cooldowns.
pub mod Effects
mod Tests
use byos.Prelude.{
  ℕ, zero, ◌+◌, String, Bool, false, true, not, Option, none, some, List, str_eq, leb, ◌==◌, ◌&&◌,
  if◌then◌else◌,
}
use byos.Provider.{ErrorClassification}
use byos.Store.Accounts
use byos.Store.Accounts.{Row, Error, Result, ok, err, Account, has_account}
use byos.Store.Cooldowns
use byos.Store.Cooldowns.Rows.{State}

-- The two tables that the manager writes.
pub record Db : Type 0 where
  pub accounts : List Row
  pub states : List State

-- `scope` in `Apply`, and the row that `applyFailure` reads.
abbrev pub scope_of : String → ErrorClassification → String
scope_of model c = if str_eq c.cooldown_scope "account" then "*" else model

abbrev pub is_rate_limit : ErrorClassification → Bool
is_rate_limit c = str_eq c.class "rate_limit"

error_of : {A : Type 0} → Result A → Option Error
error_of (ok a) = none
error_of (err e) = some e

-- The accounts that the foreign key of the cooldowns may refer to.
abbrev pub accounts_in : Db → String → Bool
accounts_in db id = has_account id db.accounts

-- The part of `Apply` after its guards for relogin and disabling.
unfoldable pub cool :
    (String → Bool)
    → String
    → String
    → ErrorClassification
    → ℕ
    → List State
    → Option Error × List State
unfolding error_of
cool is_account account_id model c now states =
    if str_eq c.cooldown_scope ""
    then (none, states)
    else if leb c.cooldown 0 && not (is_rate_limit c)
    then (none, states)
    else if is_rate_limit c && (c.explicit_retry_after && leb c.cooldown 0)
    then (none, states)
    else if is_rate_limit c && not c.explicit_retry_after
    then (let (r, states') =
          Cooldowns.advance_rate_limit is_account account_id (scope_of model c) c.class now
            states in
        (error_of r, states'))
    else Cooldowns.put is_account
        (record {
          account_id = account_id;
          model = scope_of model c;
          until = some (now + c.cooldown);
          backoff_level = 0;
          last_error_class = c.class;
          last_error_at = some now;
        })
        states

module _ {Credentials : Type 0} (decode : String → Option Credentials) where
  with_account :
      Result (Account Credentials)
      → (Account Credentials → Option Error × List Row)
      → List Row
      → Option Error × List Row
  with_account (ok a) f rows = f a
  with_account (err e) f rows = (some e, rows)

  -- `now` is both `time.Now()` and the database's clock.
  unfoldable pub apply : String → String → ErrorClassification → ℕ → Db → Option Error × Db
  unfolding with_account
  apply account_id model c now db =
      if c.relogin_required
      then (let (e, accounts) =
            with_account (Accounts.get decode account_id db.accounts)
              (λ a. Accounts.mark_relogin_required account_id a.provider now db.accounts)
              db.accounts in
          (e, record db { accounts = accounts }))
      else if c.disable_account
      then (let (e, accounts) =
            with_account (Accounts.get decode account_id db.accounts)
              (λ a. Accounts.update account_id a.label false now db.accounts) db.accounts in
          (e, record db { accounts = accounts }))
      else (let (e, states) = cool (accounts_in db) account_id model c now db.states in
          (e, record db { states = states }))

unfoldable pub success : String → String → Db → Option Error × Db
success account_id model db =
    let (e, states) = Cooldowns.ready (accounts_in db) account_id model db.states in
    (e, record db { states = states })
