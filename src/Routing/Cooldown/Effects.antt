-- ===== src/Routing/Cooldown/Effects.antt =====
-- The effects of `Apply` and `Success` (internal/routing/cooldown.go) on the two tables.
use byos.Prelude.{
  ℕ, ◌+◌, ◌<◌, ◌≡◌, ◌≢◌, refl, String, Bool, true, false, not, Option, none, some, List, str_eq,
  eq_iff, ◌&&◌, ◌||◌, arith, Bool-cases, inl, inr,
}
use byos.Time.{unix, of_unix}
use byos.Provider.{ErrorClassification}
use byos.Store.Accounts
use byos.Store.Accounts.Laws
use byos.Store.Accounts.{
  Row, Error, Result, ok, err, Account, find_account, update_where, require_affected, update,
  mark_relogin_required, scan, has_account,
}
use byos.Store.Cooldowns
use byos.Store.Cooldowns.{
  Cooldown, scan_found, put, write, ready, advance_row, is_active, expire_if_due,
}
use byos.Store.Cooldowns.Rows.{State, find_row}
use byos.Store.Cooldowns.Lookup.{get-write}
use byos.Store.Cooldowns.Invariant.{step, puts, advances, step-other}
use byos.Routing.Cooldown.{Db, accounts_in, scope_of, is_rate_limit, cool, apply, with_account}

-- Neither a relogin nor a disabling is asked for, and there is a scope.
pub record OnlyCools (c : ErrorClassification) : Type 0 where
  pub no_relogin : c.relogin_required ≡ false
  pub no_disable : c.disable_account ≡ false
  pub scoped : str_eq c.cooldown_scope "" ≡ false

-- The cooldown of a failure that carries its length.
abbrev timed : String → String → ErrorClassification → ℕ → Cooldown
timed account_id model c now = record {
  account_id = account_id;
  model = scope_of model c;
  until = some (now + c.cooldown);
  backoff_level = 0;
  last_error_class = c.class;
  last_error_at = some now;
}

cool-put :
    (is_account : String → Bool) (account_id model : String) (c : ErrorClassification) (now : ℕ)
    (states : List State)
    → str_eq c.cooldown_scope "" ≡ false
    → 0 < c.cooldown
    → (is_rate_limit c && not c.explicit_retry_after) ≡ false
    → is_account account_id ≡ true
    → cool is_account account_id model c now states
      ≡ (none, write (timed account_id model c now) states)
unfolding cool put
cool-put is_account account_id model c now states s h r here = ground arith

-- Only rows of the account itself are written.
cool-other :
    (is_account : String → Bool) (account_id model : String) (c : ErrorClassification) (now : ℕ)
    (states : List State) (b n : String)
    → account_id ≢ b
    → find_row b n (cool is_account account_id model c now states).1 ≡ find_row b n states
unfolding cool step
cool-other is_account account_id model c now states b n h = ground (
  arith,
  eq_iff account_id b,
  step-other is_account (advances account_id (scope_of model c) c.class now) b n states
      (λ e. h (first _ e)),
  step-other is_account (puts (timed account_id model c now)) b n states (λ e. h (first _ e)),
)
  where
    first : (q : Bool) → (str_eq account_id b && q) ≡ true → account_id ≡ b
    first q e = (eq_iff account_id b).0 (ground arith)

disables :
    (c : ErrorClassification)
    → c.relogin_required ≡ false
    → (c.relogin_required || c.disable_account) ≡ true
    → c.disable_account ≡ true
disables c r h = ground arith

module _ {Credentials : Type 0} (decode : String → Option Credentials) where
  apply-cool :
      (account_id model : String) (c : ErrorClassification) (now : ℕ) (db : Db)
      → c.relogin_required ≡ false
      → c.disable_account ≡ false
      → apply decode account_id model c now db ≡ (
          let (e, states) = cool (accounts_in db) account_id model c now db.states in
          (e, record db { states = states }))
  unfolding apply
  apply-cool account_id model c now db r d = ground arith

  -- For an account that there is, `Apply` of a failure that has a scope, a cooldown above zero and no
  -- request for relogin or disabling, and that is not a rate limit without an explicit time, succeeds and
  -- leaves the accounts as they are; until the whole second in which the cooldown ends, the store reports
  -- that end, in whole seconds, for the scope.
  pub apply_timed :
      (account_id model : String) (c : ErrorClassification) (now later : ℕ) (db : Db)
      → OnlyCools c
      → 0 < c.cooldown
      → (is_rate_limit c && not c.explicit_retry_after) ≡ false
      → unix later < unix (now + c.cooldown)
      → has_account account_id db.accounts ≡ true
      → let (e, db') = apply decode account_id model c now db in
        (e ≡ none)
        × (db'.accounts ≡ db.accounts)
        × (r : Cooldown) × ((Cooldowns.get account_id (scope_of model c) later db'.states).0
            ≡ some r)
        × (r.until ≡ some (of_unix (unix (now + c.cooldown))))
  apply_timed account_id model c now later db o h r l here =
      let (x, found, end) =
        get-write (timed account_id model c now) (now + c.cooldown) later db.states refl l in
      rw
        (
          apply-cool account_id model c now db o.no_relogin o.no_disable,
          cool-put (accounts_in db) account_id model c now db.states o.scoped h r here,
        )
        (refl, refl, x, found, end)

  with_account-other :
      (r : Result (Account Credentials)) (f : Account Credentials → Option Error × List Row)
      (rows : List Row) (b : String)
      → ((a : Account Credentials) → find_account b (f a).1 ≡ find_account b rows)
      → find_account b (with_account decode r f rows).1 ≡ find_account b rows
  unfolding with_account
  with_account-other (ok a) f rows b h = h a
  with_account-other (err e) f rows b h = refl

  -- Whatever the failure, `Apply` leaves the row and the cooldowns of every other account as they are.
  pub apply-other :
      (account_id model : String) (c : ErrorClassification) (now : ℕ) (db : Db) (b n : String)
      → account_id ≢ b
      → let db' = (apply decode account_id model c now db).1 in
        (find_account b db'.accounts ≡ find_account b db.accounts)
        × (find_row b n db'.states ≡ find_row b n db.states)
  unfolding apply
  apply-other account_id model c now db b n h = (
    ground (
      arith,
      with_account-other (Accounts.get decode account_id db.accounts)
          (λ a. mark_relogin_required account_id a.provider now db.accounts) db.accounts b
          (λ a. Laws.mark_relogin_required-other account_id a.provider now db.accounts b h),
      with_account-other (Accounts.get decode account_id db.accounts)
          (λ a. update account_id a.label false now db.accounts) db.accounts b
          (λ a. Laws.update-other account_id a.label false now db.accounts b h),
    ),
    ground (arith, cool-other (accounts_in db) account_id model c now db.states b n h),
  )

  -- `Apply` of a failure that asks for a relogin or for disabling, for an account that can be read,
  -- succeeds, changes no cooldown, and leaves the account disabled; after a relogin request its status
  -- says so.
  pub apply_disables :
      (account_id model : String) (c : ErrorClassification) (now : ℕ) (db : Db)
      (a : Account Credentials)
      → Accounts.get decode account_id db.accounts ≡ ok a
      → (c.relogin_required || c.disable_account) ≡ true
      → let (e, db') = apply decode account_id model c now db in
        (e ≡ none)
        × (db'.states ≡ db.states)
        × (r : Row) × (find_account account_id db'.accounts ≡ some r)
        × (r.enabled ≡ false)
        × (c.relogin_required ≡ true → r.status ≡ "relogin_required")
  unfolding apply
  apply_disables account_id model c now db a found h =
      let (r, at, valid, kind, label) = Laws.get-ok decode account_id db.accounts a found in
      let (done, marked) = Laws.mark_relogin_required-found account_id now db.accounts r at valid in
      let (updated_done, disabled) =
        Laws.update-found account_id a.label false now db.accounts r at in
      elim (Bool-cases c.relogin_required) [
        | inl relogin ↦
            rw (relogin, found, with_account, kind) (done, refl, _, marked, refl, λ _. refl)
        | inr other ↦
            rw (other, disables c other h, found, with_account)
              (updated_done, refl, _, disabled, refl, λ e. cc)
      ]

  -- `Apply` of a failure with no scope and no request for relogin or disabling changes nothing.
  pub apply_inert :
      (account_id model : String) (c : ErrorClassification) (now : ℕ) (db : Db)
      → c.relogin_required ≡ false
      → c.disable_account ≡ false
      → str_eq c.cooldown_scope "" ≡ true
      → apply decode account_id model c now db ≡ (none, db)
  unfolding apply cool
  apply_inert account_id model c now db r d s = ground arith
