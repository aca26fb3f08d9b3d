-- ===== src/Routing/Plan/Tests.antt =====
-- One account of a provider that answers at once, by `Execute` and by `Stream`.
use byos.Prelude.{ℕ, ◌+◌, ◌*◌, ◌≤◌, ◌≡◌, refl, Bool, String, true, false, none, some, [], ◌∷◌, All}
use byos.Time.{second}
use byos.Provider.{ResolvedModel}
use byos.Store.Accounts.{Row, Account, get, find_account}
use byos.Store.Cooldowns
use byos.Routing.Failure.{GoError, ok, done}
use byos.Routing.LocalUsage.{Event}
use byos.Routing.Scheduler
use byos.Routing.Scheduler.{Candidate}
use byos.Routing.Candidates
use byos.Routing.Attempt
use byos.Routing.Attempt.{World, Env, Action, generates}
use byos.Routing.Execute
use byos.Routing.Execute.{Result}
use byos.Routing.Execute.Trace.{gens, recs, applied, failures, IsConfined}
use byos.Routing.Stream.{new_routed_stream}
use byos.Routing.Plan.{
  Request, eof, Bundle, Executor, Plan, Opened, prepare, decode_canonical_request, stream_plan,
}
use byos.Routing.Plan.Opening.{Streaming, stream-done}
use byos.Routing.Plan.Bounds.{stream-bounded}

abbrev row : Row
row = record {
  id = "a";
  provider = "xai";
  label = "work";
  enabled = true;
  status = "ready";
  credentials_encrypted = "sealed";
  expires_at = none;
  last_refresh_at = none;
  last_error = "";
  created_at = 0;
  updated_at = 0;
}

abbrev account : Account String
account = record {
  provider = "xai";
  id = "a";
  label = "work";
  enabled = true;
  status = "ready";
  credentials = "sealed";
  expires_at = none;
  last_refresh_at = none;
  last_error = "";
  created_at = 0;
  updated_at = 0;
}

abbrev said : String → GoError
said text = record {
  as_upstream = none;
  is_canceled = false;
  as_network = false;
  is_unknown_model = false;
  text = text;
}

abbrev reply : Event
reply = record {
  event = "response.completed";
  raw = none;
  usage = record { input_tokens = 3; output_tokens = 5; total_tokens = 8; cache_read_tokens = 0 };
}

abbrev env : Env String String String
env = record {
  decode = λ s. some s;
  clock = λ w. 100 * second;
  credential = λ id w. (ok "token", w.db);
  generate = λ m c credential w. (ok (reply ∷ []), w.db);
  authentication_failed = λ id e w. (none, w.db);
  has_recorder = true;
  store_error = λ e. said "store";
}

abbrev bundle : Bundle String String String ℕ
bundle = record {
  policy = λ model canonical. ok canonical;
  env = env;
  sources = record {
    list_accounts = ok (account ∷ []);
    list_capabilities = λ id. ok [];
    credential_usable = none;
  };
  streams = record {
    open_stream = λ model canonical credential w. (ok 1, w.db);
    next = λ h w. (ok reply, w.db);
    close = λ h w. w.db;
  };
}

abbrev model : ResolvedModel
model = record {
  public_name = "grok";
  upstream_name = "grok-4.5";
  provider = "xai";
  owned_by = "xai";
  policy_key = "xai";
}

abbrev executor : Executor String String String ℕ
executor = record {
  resolve = some (λ name. ok model);
  capabilities = some (λ kind key. some bundle);
  decode_first = λ body. ok (some body);
  decode_trailing = λ body. eof;
  set_model = λ name canonical. canonical;
  said = said;
}

abbrev request : Request
request = record { model = "grok"; body = "{}"; preferred_account_id = "" }

abbrev plan : Plan String String String ℕ
plan = record { model = model; bundle = bundle; canonical = "{}" }

abbrev start : World
start = record { db = record { accounts = row ∷ []; states = [] }; log = [] }

abbrev candidate : Candidate
candidate = record {
  id = "a";
  provider = "xai";
  enabled = true;
  valid = true;
  capabilities = λ _. false;
  capabilities_known = false;
  cooldown_until = λ _. 0;
}

abbrev answer : Result
answer = record { model = "grok-4.5"; account_id = "a"; events = reply ∷ [] }

abbrev open_stream : Opened ℕ
open_stream = record {
  account_id = "a";
  model = "grok-4.5";
  handle = 1;
  state = new_routed_stream reply;
}

prepared : prepare executor request ≡ done plan
unfolding prepare decode_canonical_request
prepared = refl

streamed : (stream_plan executor plan (candidate ∷ []) start).0 ≡ done open_stream
unfolding stream_plan Execute.failover Attempt.get_account get find_account Execute.attempt
streamed = refl

stream-bounded_example :
    let log = (stream_plan executor plan (candidate ∷ []) start).1.log in
    All (IsConfined "xai") log
    × (gens log ≤ 1 + recs log)
    × (recs log ≤ 1)
    × (◌≡◌ {A = Bool} true true → failures log ≡ applied log)
stream-bounded_example = stream-bounded plan executor (candidate ∷ []) start refl

stream-done_example :
    Streaming plan executor open_stream (stream_plan executor plan (candidate ∷ []) start).1
stream-done_example = stream-done plan executor (candidate ∷ []) start open_stream streamed
