-- ===== src/Routing/Cooldown/Tests.antt =====
-- One account with an earlier rate limit, and a failure of each kind.
use byos.Prelude.{◌*◌, ◌≡◌, refl, String, true, Option, none, some, [], ◌∷◌, str_ne, arith}
use byos.Time.{second}
use byos.Provider.{ErrorClassification, no_classification}
use byos.Store.Accounts
use byos.Store.Accounts.{Row, Account, Error, find_account, has_account}
use byos.Store.Cooldowns
use byos.Store.Cooldowns.{Cooldown}
use byos.Store.Cooldowns.Rows.{State, find_row}
use byos.Routing.Cooldown.{Db, apply}
use byos.Routing.Cooldown.Effects.{apply_timed, apply-other}

abbrev row : Row
row = record {
  id = "a";
  provider = "devin";
  label = "work";
  enabled = true;
  status = "ready";
  credentials_encrypted = "sealed";
  expires_at = none;
  last_refresh_at = none;
  last_error = "";
  created_at = 0;
  updated_at = 0;
}

abbrev limited : State
limited = record {
  account_id = "a";
  model = "swe-1-7";
  cooldown_until = some 90;
  backoff_level = 1;
  last_error_class = "rate_limit";
  last_error_at = some 30;
}

abbrev db : Db
db = record { accounts = row ∷ []; states = limited ∷ [] }

abbrev open_seal : String → Option String
open_seal s = some s

abbrev transient : ErrorClassification
transient = record no_classification {
  class = "transient";
  cooldown_scope = "account";
  cooldown = 30 * second;
}

abbrev rate_limit : ErrorClassification
rate_limit = record no_classification { class = "rate_limit"; cooldown_scope = "model" }

abbrev unauthorized : ErrorClassification
unauthorized = record no_classification {
  class = "unauthorized";
  relogin_required = true;
  cooldown_scope = "account";
}

abbrev account : Account String
account = record {
  provider = "devin";
  id = "a";
  label = "work";
  enabled = true;
  status = "ready";
  credentials = "sealed";
  expires_at = none;
  last_refresh_at = none;
  last_error = "";
  created_at = 0;
  updated_at = 0;
}

apply_timed_example :
    let (e, db') = apply open_seal "a" "swe-1-7" transient (100 * second) db in
    (e ≡ none)
    × (db'.accounts ≡ db.accounts)
    × (r : Cooldown) × ((Cooldowns.get "a" "*" (120 * second) db'.states).0 ≡ some r)
    × (r.until ≡ some (130 * second))
unfolding has_account
apply_timed_example =
    apply_timed open_seal "a" "swe-1-7" transient (100 * second) (120 * second) db
      (record { no_relogin = refl; no_disable = refl; scoped = refl }) (omega arith) refl
      (omega arith) refl

apply-other_example :
    let db' = (apply open_seal "b" "swe-1-7" rate_limit (100 * second) db).1 in
    (find_account "a" db'.accounts ≡ find_account "a" db.accounts)
    × (find_row "a" "swe-1-7" db'.states ≡ find_row "a" "swe-1-7" db.states)
apply-other_example =
    apply-other open_seal "b" "swe-1-7" rate_limit (100 * second) db "a" "swe-1-7"
      (str_ne "b" "a" refl)

reads_account : Accounts.get open_seal "a" db.accounts ≡ Accounts.ok account
unfolding Accounts.get find_account
reads_account = refl
