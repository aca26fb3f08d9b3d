-- ===== src/Routing/Plan.antt =====
-- internal/routing/execute.go and stream.go: `prepare`, and `Execute` and `Stream` as a whole. The
-- catalog, the registry, the policy of a provider and the JSON decoder are parameters; `none` stands for
-- nil. A Go error with a text of its own is made by `said`.
pub mod Bounds
pub mod Opening
mod Tests
use byos.Prelude.{
  ℕ, String, Bool, true, false, not, Option, none, some, List, [], ◌∷◌, str_eq, ◌&&◌, ◌||◌,
  if◌then◌else◌,
}
use byos.Provider.{Kind, is_valid_kind, ResolvedModel}
use byos.Store.Accounts.{Account}
use byos.Routing.Failure.{
  GoError, Failable, ok, fail, ExecuteError, model_unavailable, no_available_accounts, execution,
  failed, Outcome, done, error,
}
use byos.Routing.LocalUsage.{Event}
use byos.Routing.Scheduler.{Candidate, Scheduler}
use byos.Routing.Cooldown.{Db}
use byos.Routing.Candidates.{Sources, candidates}
use byos.Routing.Attempt.{World, Env, Step, ask, generates}
use byos.Routing.Execute.{Result, failover, execute_ordered}
use byos.Routing.Stream.{RoutedStream, new_routed_stream}

pub record Request : Type 0 where
  pub model : String
  pub body : String
  pub preferred_account_id : String

-- What the decoder finds after the first value.
pub data Trailing : Type 0 where
  eof value : Trailing
  malformed : GoError → Trailing

-- The streams of a provider.
pub record Streams (Credential Canonical Handle : Type 0) : Type 0 where
  pub open_stream : ResolvedModel → Canonical → Credential → World → Failable Handle × Db
  pub next : Handle → World → Failable Event × Db
  pub close : Handle → World → Db

-- provider.Capabilities, once its policy, generation and credentials are known not to be nil.
pub record Bundle (Credentials Credential Canonical Handle : Type 0) : Type 0 where
  pub policy : ResolvedModel → Canonical → Failable Canonical
  pub env : Env Credentials Credential Canonical
  pub sources : Sources Credentials
  pub streams : Streams Credential Canonical Handle

pub record Executor (Credentials Credential Canonical Handle : Type 0) : Type 0 where
  pub resolve : Option (String → Failable ResolvedModel)
  -- An answer with a part that is nil counts as none.
  pub capabilities :
      Option (Kind → String → Option (Bundle Credentials Credential Canonical Handle))
  -- `Decode`: `none` is the value null.
  pub decode_first : String → Failable (Option Canonical)
  pub decode_trailing : String → Trailing
  pub set_model : String → Canonical → Canonical
  pub said : String → GoError

pub record Plan (Credentials Credential Canonical Handle : Type 0) : Type 0 where
  pub model : ResolvedModel
  pub bundle : Bundle Credentials Credential Canonical Handle
  pub canonical : Canonical

-- A stream that was opened, with what it keeps of the request.
pub record Opened (Handle : Type 0) : Type 0 where
  pub account_id : String
  pub model : String
  pub handle : Handle
  pub state : RoutedStream

module _ {Credentials Credential Canonical Handle : Type 0}
    (e : Executor Credentials Credential Canonical Handle) where
  check_trailing : Canonical → Trailing → Failable Canonical
  check_trailing canonical eof = ok canonical
  check_trailing canonical value = fail (e.said "canonical request must contain one JSON value")
  check_trailing canonical (malformed cause) = fail cause

  check_first : String → Failable (Option Canonical) → Failable Canonical
  unfolding check_trailing
  check_first body (fail cause) = fail cause
  check_first body (ok none) = fail (e.said "canonical request must be a JSON object")
  check_first body (ok (some canonical)) = check_trailing canonical (e.decode_trailing body)

  unfoldable pub decode_canonical_request : String → Failable Canonical
  unfolding check_first
  decode_canonical_request body = check_first body (e.decode_first body)

  planned :
      ResolvedModel
      → Bundle Credentials Credential Canonical Handle
      → Failable Canonical
      → Outcome (Plan Credentials Credential Canonical Handle)
  planned resolved bundle (fail cause) = error (failed cause)
  planned resolved bundle (ok canonical) = done (record {
    model = resolved;
    bundle = bundle;
    canonical = e.set_model resolved.upstream_name canonical;
  })

  with_policy :
      ResolvedModel
      → Bundle Credentials Credential Canonical Handle
      → Failable Canonical
      → Outcome (Plan Credentials Credential Canonical Handle)
  unfolding planned
  with_policy resolved bundle (fail cause) = error (failed cause)
  with_policy resolved bundle (ok canonical) =
      planned resolved bundle (bundle.policy resolved canonical)

  with_bundle :
      Request
      → ResolvedModel
      → Option (Bundle Credentials Credential Canonical Handle)
      → Outcome (Plan Credentials Credential Canonical Handle)
  unfolding with_policy decode_canonical_request
  with_bundle request resolved none = error model_unavailable
  with_bundle request resolved (some bundle) =
      with_policy resolved bundle (decode_canonical_request request.body)

  look_up_bundle :
      ResolvedModel
      → Option (Kind → String → Option (Bundle Credentials Credential Canonical Handle))
      → Option (Bundle Credentials Credential Canonical Handle)
  look_up_bundle resolved none = none
  look_up_bundle resolved (some registry) = registry resolved.provider resolved.policy_key

  abbrev pub is_complete : ResolvedModel → Bool
  is_complete resolved =
      is_valid_kind resolved.provider
      && (not (str_eq resolved.upstream_name "") && not (str_eq resolved.policy_key ""))

  with_resolved :
      Request → Failable ResolvedModel → Outcome (Plan Credentials Credential Canonical Handle)
  unfolding with_bundle look_up_bundle
  with_resolved request (fail cause) =
      if cause.is_unknown_model then error model_unavailable else error (failed cause)
  with_resolved request (ok resolved) =
      if is_complete resolved
      then with_bundle request resolved (look_up_bundle resolved e.capabilities)
      else error (failed (e.said "resolved model is incomplete"))

  with_catalog :
      Request
      → Option (String → Failable ResolvedModel)
      → Outcome (Plan Credentials Credential Canonical Handle)
  unfolding with_resolved
  with_catalog request none = error (failed (e.said "model catalog is required"))
  with_catalog request (some resolve) = with_resolved request (resolve request.model)

  unfoldable pub prepare : Request → Outcome (Plan Credentials Credential Canonical Handle)
  unfolding with_catalog
  prepare request = with_catalog request e.resolve

  -- A loop over the ordered candidates, or the error instead of them.
  run_ordered :
      {A : Type 0}
      → Outcome (List Candidate)
      → (List Candidate → Step (Outcome A))
      → Step (Outcome A)
  run_ordered (done ordered) loop w = loop ordered w
  run_ordered (error no_available_accounts) loop w = (error model_unavailable, w)
  run_ordered (error model_unavailable) loop w = (error model_unavailable, w)
  run_ordered (error (execution c)) loop w = (error (execution c), w)
  run_ordered (error (failed cause)) loop w = (error (failed cause), w)

  -- What `Execute` and `Stream` share around their loops; the scheduler is passed along with the world.
  serve :
      {A : Type 0}
      → (Plan Credentials Credential Canonical Handle → List Candidate → Step (Outcome A))
      → Request
      → Outcome (Plan Credentials Credential Canonical Handle)
      → Scheduler
      → World
      → Outcome A × (Scheduler × World)
  unfolding run_ordered candidates
  serve loop request (error cause) s w = (error cause, (s, w))
  serve loop request (done plan) s w =
      let (ordered, (states, s')) =
        candidates plan.bundle.sources plan.model request.preferred_account_id
          (plan.bundle.env.clock w) w.db.states s in
      let (answer, w') =
        run_ordered ordered (loop plan) (record w { db = record w.db { states = states } }) in
      (answer, (s', w'))

  execute_plan :
      Plan Credentials Credential Canonical Handle → List Candidate → Step (Outcome Result)
  unfolding execute_ordered
  execute_plan plan ordered = execute_ordered plan.bundle.env plan.model plan.canonical ordered

  unfoldable pub execute : Request → Scheduler → World → Outcome Result × (Scheduler × World)
  unfolding serve execute_plan prepare
  execute request = serve execute_plan request (prepare request)

  first_of :
      Plan Credentials Credential Canonical Handle
      → World
      → Handle
      → Failable Event × Db
      → Failable (Handle × Event) × Db
  first_of plan w h (ok first, db) = (ok (h, first), db)
  first_of plan w h (fail cause, db) =
      (fail cause, plan.bundle.streams.close h (record w { db = db }))

  -- A stream with its first event; a stream without one is closed.
  buffer :
      Plan Credentials Credential Canonical Handle
      → World
      → Failable Handle × Db
      → Failable (Handle × Event) × Db
  unfolding first_of
  buffer plan w (fail cause, db) = (fail cause, db)
  buffer plan w (ok h, db) = first_of plan w h (plan.bundle.streams.next h (record w { db = db }))

  call_stream :
      Plan Credentials Credential Canonical Handle
      → Account Credentials
      → Credential
      → Step (Failable (Handle × Event))
  unfolding buffer
  call_stream plan a credential =
      ask plan.bundle.env (generates a.id a.provider) (λ w.
        buffer plan w (plan.bundle.streams.open_stream plan.model plan.canonical credential w))

  opened :
      Plan Credentials Credential Canonical Handle
      → Account Credentials
      → Handle × Event
      → Step (Outcome (Opened Handle))
  unfolding new_routed_stream
  opened plan a (h, first) w = (
    done (record {
      account_id = a.id;
      model = plan.model.upstream_name;
      handle = h;
      state = new_routed_stream first;
    }),
    w,
  )

  unfoldable pub stream_plan :
      Plan Credentials Credential Canonical Handle → List Candidate → Step (Outcome (Opened Handle))
  unfolding call_stream opened
  stream_plan plan ordered =
      failover plan.bundle.env plan.model (call_stream plan) (opened plan) ordered none

  unfoldable pub stream :
      Request → Scheduler → World → Outcome (Opened Handle) × (Scheduler × World)
  unfolding serve stream_plan prepare
  stream request = serve stream_plan request (prepare request)
