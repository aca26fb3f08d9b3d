-- ===== src/Routing/Execute/Tests.antt =====
-- Two accounts of one provider, the first of which is rate limited.
use byos.Prelude.{
  ℕ, ◌+◌, ◌*◌, ◌≤◌, ◌≡◌, refl, Bool, String, true, false, none, some, List, [], ◌∷◌, All, str_eq,
  if◌then◌else◌,
}
use byos.Time.{second}
use byos.Provider.{ResolvedModel, no_classification}
use byos.Store.Accounts.{Row, Account}
use byos.Store.Cooldowns
use byos.Store.Cooldowns.{Cooldown}
use byos.Routing.Cooldown.{Db}
use byos.Routing.Failure.{GoError, Failable, ok, fail, done}
use byos.Routing.LocalUsage.{Event, completed_usage}
use byos.Routing.Scheduler.{Candidate}
use byos.Routing.Attempt.{World, Env, Action, generates, succeeds}
use byos.Routing.Execute.{Result, execute_ordered}
use byos.Routing.Execute.Trace.{gens, recs, applied, failures, IsConfined}
use byos.Routing.Execute.Success.{execute-bounded, execute-done, reported}

abbrev row : String → Row
row id = record {
  id = id;
  provider = "xai";
  label = id;
  enabled = true;
  status = "ready";
  credentials_encrypted = "";
  expires_at = none;
  last_refresh_at = none;
  last_error = "";
  created_at = 0;
  updated_at = 0;
}

abbrev candidate : String → Candidate
candidate id = record {
  id = id;
  provider = "xai";
  enabled = true;
  valid = true;
  capabilities = λ _. false;
  capabilities_known = false;
  cooldown_until = λ _. 0;
}

abbrev rate_limited : GoError
rate_limited = record {
  as_upstream = some (record {
    provider = "xai";
    status = 429;
    classification = record no_classification {
      class = "rate_limit";
      retry_next = true;
      cooldown_scope = "model";
    };
  });
  is_canceled = false;
  as_network = false;
  is_unknown_model = false;
  text = "too many requests";
}

abbrev reply : Event
reply = record {
  event = "response.completed";
  raw = none;
  usage = record { input_tokens = 3; output_tokens = 5; total_tokens = 8; cache_read_tokens = 0 };
}

abbrev env : Env String String String
env = record {
  decode = λ s. some s;
  clock = λ w. 100 * second;
  credential = λ id w. (ok id, w.db);
  generate = λ m c credential w.
      (if str_eq credential "a" then fail rate_limited else ok (reply ∷ []), w.db);
  authentication_failed = λ id e w. (none, w.db);
  has_recorder = true;
  store_error = λ e. rate_limited;
}

abbrev model : ResolvedModel
model = record {
  public_name = "grok";
  upstream_name = "grok-4.5";
  provider = "xai";
  owned_by = "xai";
  policy_key = "xai";
}

abbrev start : World
start = record { db = record { accounts = row "a" ∷ row "b" ∷ []; states = [] }; log = [] }

abbrev ordered : List Candidate
ordered = candidate "a" ∷ candidate "b" ∷ []

abbrev result : Result
result = record { model = "grok-4.5"; account_id = "b"; events = reply ∷ [] }

fails_over : (execute_ordered env model "" ordered start).0 ≡ done result
unfolding execute_ordered byos.Routing.Execute.failover byos.Routing.Attempt.get_account
    byos.Store.Accounts.get byos.Store.Accounts.find_account byos.Routing.Execute.attempt
    byos.Routing.Failure.classify_execution_error byos.Routing.Execute.fail_account
    byos.Routing.Attempt.apply_failure byos.Routing.Cooldown.apply Cooldowns.get
    byos.Store.Cooldowns.Rows.find_row byos.Store.Cooldowns.Rows.update_row
    byos.Routing.Cooldown.cool Cooldowns.advance_rate_limit byos.Store.Cooldowns.Rows.upsert
    byos.Routing.Attempt.record_usage byos.Store.Accounts.has_account Cooldowns.write_rate_limit
    byos.Routing.Attempt.cooldown_success byos.Routing.Cooldown.success Cooldowns.ready
fails_over = refl

execute-bounded_example :
    let log = (execute_ordered env model "" ordered start).1.log in
    All (IsConfined "xai") log
    × (gens log ≤ 2 + recs log)
    × (recs log ≤ 2)
    × (◌≡◌ {A = Bool} true true → failures log ≡ applied log)
execute-bounded_example = execute-bounded env model "" ordered start refl

execute-done_example :
    let after = (execute_ordered env model "" ordered start).1 in
    (◌≡◌ {A = String} "grok-4.5" "grok-4.5")
    × (rest : List Action) × (after.log
        ≡ reported true "b"
            (completed_usage (reply ∷ []))
            (succeeds "b" "grok-4.5" ∷ generates "b" "xai" ∷ rest))
    × ((later : ℕ)
        → (c : Cooldown) × ((Cooldowns.get "b" "grok-4.5" later after.db.states).0 ≡ some c)
          × (c.until ≡ none))
execute-done_example = execute-done env model "" ordered start result fails_over
