-- ===== src/Routing/Plan/Bounds.antt =====
-- `prepare`, and `Stream` and `Execute` as a whole (internal/routing/execute.go and stream.go).
use mathlib.Core.Path.{subst}
use byos.Prelude.{
  ◌+◌, ◌≤◌, ◌≡◌, refl, String, true, Option, none, some, List, [], ◌∷◌, All, length, arith,
  Bool-cases, inl, inr,
}
use byos.Provider.{ResolvedModel}
use byos.Store.Accounts.{Account}
use byos.Routing.Failure.{Failable, ok, fail, Outcome, done}
use byos.Routing.LocalUsage.{Event, completed_usage}
use byos.Routing.Scheduler.{Candidate, Scheduler}
use byos.Routing.Candidates.{candidates}
use byos.Routing.Attempt.{World, Action, generates, succeeds}
use byos.Routing.Execute.{Result}
use byos.Routing.Execute.Trace.{
  gens, recs, applied, failures, IsConfined, Adds, Adds-none, failover-Adds,
}
use byos.Routing.Execute.Success.{reported}
use byos.Routing.Plan.{
  Request, Bundle, Executor, Plan, is_complete, planned, with_policy, with_bundle, look_up_bundle,
  with_resolved, with_catalog, prepare, decode_canonical_request, call_stream, opened, stream_plan,
}

module _ {Credentials Credential Canonical Handle : Type 0}
    (plan : Plan Credentials Credential Canonical Handle)
    (e : Executor Credentials Credential Canonical Handle) where
  opened-Adds :
      (a : Account Credentials) (r : Handle × Event) (w : World)
      → Adds plan.model.provider plan.bundle.env.has_recorder 0 0 w.log (opened e plan a r w).1.log
  unfolding opened
  opened-Adds a (h, first) w = Adds-none plan.model.provider plan.bundle.env.has_recorder w.log

  abbrev Grown : List Candidate → List Action → List Action → Type 0
  Grown ordered =
      Adds plan.model.provider plan.bundle.env.has_recorder (length ordered) (length ordered)

  -- Begun with an empty log, the loop of `Stream` calls a provider only for accounts of the model's own
  -- provider, at most once for each candidate and once more for each recovery, recovers at most once for
  -- each candidate, and, if there is a recorder, records failures as often as it applies them.
  pub stream-bounded :
      (ordered : List Candidate) (w : World)
      → w.log ≡ []
      → let log = (stream_plan e plan ordered w).1.log in
        All (IsConfined plan.model.provider) log
        × (gens log ≤ length ordered + recs log)
        × (recs log ≤ length ordered)
        × (plan.bundle.env.has_recorder ≡ true → failures log ≡ applied log)
  unfolding stream_plan call_stream
  stream-bounded ordered w start = bounds (
      subst (λ l. Grown ordered l (stream_plan e plan ordered w).1.log) start
        (failover-Adds plan.bundle.env plan.model (call_stream e plan) (opened e plan)
          (λ a c v. refl) opened-Adds ordered none w))
    where
      bounds :
          {log : List Action}
          → Grown ordered [] log
          → All (IsConfined plan.model.provider) log
            × (gens log ≤ length ordered + recs log)
            × (recs log ≤ length ordered)
            × (plan.bundle.env.has_recorder ≡ true → failures log ≡ applied log)
      bounds v = (
        v.confined tt,
        omega (arith, v.called),
        omega (arith, v.recovered_within),
        λ r. omega (arith, v.recorded r),
      )

module _ {Credentials Credential Canonical Handle : Type 0}
    (e : Executor Credentials Credential Canonical Handle) (request : Request) where
  -- What a plan keeps of the request.
  pub record Plans (plan : Plan Credentials Credential Canonical Handle) : Type 0 where
    pub resolve : String → Failable ResolvedModel
    pub catalog : e.resolve ≡ some resolve
    pub resolved : resolve request.model ≡ ok plan.model
    pub complete : is_complete e plan.model ≡ true
    pub decoded : Canonical
    pub body : decode_canonical_request e request.body ≡ ok decoded
    pub prepared : Canonical
    pub policy : plan.bundle.policy plan.model decoded ≡ ok prepared
    pub canonical : plan.canonical ≡ e.set_model plan.model.upstream_name prepared

  same_plan :
      {p q : Plan Credentials Credential Canonical Handle}
      → ◌≡◌ {A = Outcome (Plan Credentials Credential Canonical Handle)} (done p) (done q)
      → p ≡ q
  same_plan h = cc

  module _ (resolve : String → Failable ResolvedModel) (catalog : e.resolve ≡ some resolve)
      (model : ResolvedModel) (resolved : resolve request.model ≡ ok model)
      (complete : is_complete e model ≡ true)
      (bundle : Bundle Credentials Credential Canonical Handle) where
    planned-Plans :
        (c : Canonical) (r : Failable Canonical)
        (plan : Plan Credentials Credential Canonical Handle)
        → decode_canonical_request e request.body ≡ ok c
        → bundle.policy model c ≡ r
        → planned e model bundle r ≡ done plan
        → Plans plan
    unfolding planned
    planned-Plans c (fail cause) plan body policy h = absurd (cc)
    planned-Plans c (ok p) plan body policy h = subst Plans (same_plan h) (record {
      resolve = resolve;
      catalog = catalog;
      resolved = resolved;
      complete = complete;
      decoded = c;
      body = body;
      prepared = p;
      policy = policy;
      canonical = refl;
    })

    with_policy-Plans :
        (r : Failable Canonical) (plan : Plan Credentials Credential Canonical Handle)
        → decode_canonical_request e request.body ≡ r
        → with_policy e model bundle r ≡ done plan
        → Plans plan
    unfolding with_policy
    with_policy-Plans (fail cause) plan body h = absurd (cc)
    with_policy-Plans (ok c) plan body h = planned-Plans c (bundle.policy model c) plan body refl h

  with_bundle-Plans :
      (resolve : String → Failable ResolvedModel) (model : ResolvedModel)
      (b : Option (Bundle Credentials Credential Canonical Handle))
      (plan : Plan Credentials Credential Canonical Handle)
      → e.resolve ≡ some resolve
      → resolve request.model ≡ ok model
      → is_complete e model ≡ true
      → with_bundle e request model b ≡ done plan
      → Plans plan
  unfolding with_bundle
  with_bundle-Plans resolve model none plan catalog resolved complete h = absurd (cc)
  with_bundle-Plans resolve model (some bundle) plan catalog resolved complete h =
      with_policy-Plans resolve catalog model resolved complete bundle
        (decode_canonical_request e request.body) plan refl h

  with_resolved-Plans :
      (resolve : String → Failable ResolvedModel) (r : Failable ResolvedModel)
      (plan : Plan Credentials Credential Canonical Handle)
      → e.resolve ≡ some resolve
      → resolve request.model ≡ r
      → with_resolved e request r ≡ done plan
      → Plans plan
  unfolding with_resolved
  with_resolved-Plans resolve (fail cause) plan catalog resolved h = absurd (ground arith)
  with_resolved-Plans resolve (ok model) plan catalog resolved h =
      elim (Bool-cases (is_complete e model)) [
        | inr other ↦ absurd (ground arith)
        | inl complete ↦
            with_bundle-Plans resolve model (look_up_bundle e model e.capabilities) plan catalog
              resolved complete (ground arith)
      ]

  with_catalog-Plans :
      (o : Option (String → Failable ResolvedModel))
      (plan : Plan Credentials Credential Canonical Handle)
      → e.resolve ≡ o
      → with_catalog e request o ≡ done plan
      → Plans plan
  unfolding with_catalog
  with_catalog-Plans none plan catalog h = absurd (cc)
  with_catalog-Plans (some resolve) plan catalog h =
      with_resolved-Plans resolve (resolve request.model) plan catalog refl h

  -- A plan that `prepare` returns is for the model that the catalog resolves the request's to, whose
  -- provider is a known one and whose upstream name and policy key are not empty; its canonical request
  -- is the request's body as decoded, prepared by the policy of the plan's capabilities for that model,
  -- with its model set to the upstream name.
  pub prepare-Plans :
      (plan : Plan Credentials Credential Canonical Handle)
      → prepare e request ≡ done plan
      → Plans plan
  unfolding prepare
  prepare-Plans plan h = with_catalog-Plans e.resolve plan refl h

  ordered_for :
      Plan Credentials Credential Canonical Handle → Scheduler → World → Outcome (List Candidate)
  ordered_for plan s w =
      (candidates plan.bundle.sources plan.model request.preferred_account_id
        (plan.bundle.env.clock w) w.db.states s).0

  -- The world in which the loop over the candidates begins.
  looked_up : Plan Credentials Credential Canonical Handle → Scheduler → World → World
  looked_up plan s w = record w {
    db = record w.db {
      states =
          (candidates plan.bundle.sources plan.model request.preferred_account_id
            (plan.bundle.env.clock w) w.db.states s).1.0;
    };
  }

  -- What a result of `Execute` says of the request.
  pub record Served (s : Scheduler) (w after : World) (r : Result) : Type 0 where
    pub plan : Plan Credentials Credential Canonical Handle
    pub plans : Plans plan
    pub ordered : List Candidate
    pub chosen :
        (candidates plan.bundle.sources plan.model request.preferred_account_id
          (plan.bundle.env.clock w)
          w.db.states
          s).0
        ≡ done ordered
    pub model : r.model ≡ plan.model.upstream_name
    pub rest : List Action
    pub trace :
        after.log
        ≡ reported plan.bundle.env.has_recorder r.account_id
            (completed_usage r.events)
            (succeeds r.account_id r.model ∷ generates r.account_id plan.model.provider ∷ rest)
