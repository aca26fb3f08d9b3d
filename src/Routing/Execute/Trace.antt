-- ===== src/Routing/Execute/Trace.antt =====
-- The actions of the failover loop (internal/routing/execute.go), counted.
use mathlib.Core.Path.{subst}
use byos.Prelude.{
  ℕ, suc, ◌+◌, ◌≤◌, ◌≡◌, refl, String, Bool, true, false, Option, some, List, [], ◌∷◌, All, length,
  arith, str_eq, eq_iff, Bool-cases, inl, inr, if◌then◌else◌,
}
use byos.Provider.{Kind, ResolvedModel, ErrorClassification}
use byos.Store.Accounts.{Account}
use byos.Routing.Failure.{Failable, ok, fail, Outcome, classify_execution_error}
use byos.Routing.LocalUsage.{one_failure}
use byos.Routing.Scheduler.{Candidate}
use byos.Routing.Attempt.{
  World, Env, Step, ◌>>=◌, Action, reads, asks_credential, generates, recovers, succeeds, applies,
  records, get_account, ask_credential, recover_authentication, Recovery, retries, gives_up,
}
use byos.Routing.Attempt.Log.{
  apply_failure-log, record_usage-log, ask_credential-log, get_account-log,
  recover_authentication-Recovered, Recovered, not_asked, refused, asked,
}
use byos.Routing.Execute.{
  Next, returns, moves_on, fail_account, finished, retry_same, recovered, first_call,
  with_credential, attempt, follow, visit, failover,
}

-- Calls of a provider, recoveries of a credential, failures that are applied and failures that are recorded.
abbrev pub gens : List Action → ℕ
gens [] = 0
gens (generates id kind ∷ log) = suc (gens log)
gens (reads id ∷ log) = gens log
gens (asks_credential id ∷ log) = gens log
gens (recovers id ∷ log) = gens log
gens (succeeds id model ∷ log) = gens log
gens (applies id model c ∷ log) = gens log
gens (records id delta ∷ log) = gens log

abbrev pub recs : List Action → ℕ
recs [] = 0
recs (generates id kind ∷ log) = recs log
recs (reads id ∷ log) = recs log
recs (asks_credential id ∷ log) = recs log
recs (recovers id ∷ log) = suc (recs log)
recs (succeeds id model ∷ log) = recs log
recs (applies id model c ∷ log) = recs log
recs (records id delta ∷ log) = recs log

abbrev pub applied : List Action → ℕ
applied [] = 0
applied (generates id kind ∷ log) = applied log
applied (reads id ∷ log) = applied log
applied (asks_credential id ∷ log) = applied log
applied (recovers id ∷ log) = applied log
applied (succeeds id model ∷ log) = applied log
applied (applies id model c ∷ log) = suc (applied log)
applied (records id delta ∷ log) = applied log

abbrev pub failures : List Action → ℕ
failures [] = 0
failures (generates id kind ∷ log) = failures log
failures (reads id ∷ log) = failures log
failures (asks_credential id ∷ log) = failures log
failures (recovers id ∷ log) = failures log
failures (succeeds id model ∷ log) = failures log
failures (applies id model c ∷ log) = failures log
failures (records id delta ∷ log) = delta.failures + failures log

-- A provider is called only for accounts of its own.
abbrev pub IsConfined : Kind → Action → Type 0
IsConfined owner (generates id kind) = kind ≡ owner
IsConfined owner _ = Unit {0}

-- What is added to a log: up to `n` calls that no recovery precedes, and up to `m` recoveries. A call
-- beyond these follows a recovery, and a failure is recorded as often as it is applied.
pub record Adds (owner : Kind) (recording : Bool) (n m : ℕ) (before after : List Action)
    : Type 0 where
  pub called : gens after + recs before ≤ gens before + n + recs after
  pub recovered_within : recs after ≤ recs before + m
  pub recoveries_stay : recs before ≤ recs after
  pub confined : All (IsConfined owner) before → All (IsConfined owner) after
  pub recorded :
      recording ≡ true → failures after + applied before ≡ failures before + applied after

pub Adds-none :
    (owner : Kind) (recording : Bool) (log : List Action) → Adds owner recording 0 0 log log
Adds-none owner recording log = record {
  called = omega arith;
  recovered_within = omega arith;
  recoveries_stay = omega arith;
  confined = λ h. h;
  recorded = λ _. refl;
}

pub Adds-trans :
    {owner : Kind} {recording : Bool} {n m p q : ℕ} {a b c : List Action}
    → Adds owner recording n m a b
    → Adds owner recording p q b c
    → Adds owner recording (n + p) (m + q) a c
Adds-trans v w = record {
  called = omega (arith, v.called, w.called);
  recovered_within = omega (arith, v.recovered_within, w.recovered_within);
  recoveries_stay = omega (arith, v.recoveries_stay, w.recoveries_stay);
  confined = λ h. w.confined (v.confined h);
  recorded = λ r. omega (arith, v.recorded r, w.recorded r);
}

Adds-le :
    {owner : Kind} {recording : Bool} {n m p q : ℕ} {a b : List Action}
    → Adds owner recording n m a b
    → n ≤ p
    → m ≤ q
    → Adds owner recording p q a b
Adds-le v h k = record {
  called = omega (arith, v.called);
  recovered_within = omega (arith, v.recovered_within);
  recoveries_stay = v.recoveries_stay;
  confined = v.confined;
  recorded = v.recorded;
}

failure-Adds :
    (owner : Kind) (recording : Bool) (id model : String) (c : ErrorClassification)
    (log : List Action)
    → Adds owner recording 0 0 log
        (applies id model c ∷ (if recording then records id one_failure ∷ log else log))
failure-Adds owner true id model c log = record {
  called = omega arith;
  recovered_within = omega arith;
  recoveries_stay = omega arith;
  confined = λ h. (tt, (tt, h));
  recorded = λ _. omega arith;
}
failure-Adds owner false id model c log = record {
  called = omega arith;
  recovered_within = omega arith;
  recoveries_stay = omega arith;
  confined = λ h. (tt, h);
  recorded = λ e. cc;
}

generates-Adds :
    (owner : Kind) (recording : Bool) (id : String) (kind : Kind) (m : ℕ) (log : List Action)
    {after : List Action}
    → kind ≡ owner
    → Adds owner recording 0 m (generates id kind ∷ log) after
    → Adds owner recording 1 m log after
generates-Adds owner recording id kind m log own v = record {
  called = omega (arith, v.called);
  recovered_within = omega (arith, v.recovered_within);
  recoveries_stay = omega (arith, v.recoveries_stay);
  confined = λ h. v.confined (own, h);
  recorded = v.recorded;
}

-- The call that follows a recovery.
retried-Adds :
    (owner : Kind) (recording : Bool) (id : String) (log : List Action) {after : List Action}
    → Adds owner recording 1 0 (asks_credential id ∷ recovers id ∷ log) after
    → Adds owner recording 0 1 log after
retried-Adds owner recording id log v = record {
  called = omega (arith, v.called);
  recovered_within = omega (arith, v.recovered_within);
  recoveries_stay = omega (arith, v.recoveries_stay);
  confined = λ h. v.confined (tt, (tt, h));
  recorded = v.recorded;
}

asked-Adds :
    (owner : Kind) (recording : Bool) (id : String) {n m : ℕ} (log : List Action)
    {after : List Action}
    → Adds owner recording n m (asks_credential id ∷ log) after
    → Adds owner recording n m log after
asked-Adds owner recording id log v = record {
  called = v.called;
  recovered_within = v.recovered_within;
  recoveries_stay = v.recoveries_stay;
  confined = λ h. v.confined (tt, h);
  recorded = v.recorded;
}

read-Adds :
    (owner : Kind) (recording : Bool) (id : String) {n m : ℕ} (log : List Action)
    {after : List Action}
    → Adds owner recording n m (reads id ∷ log) after
    → Adds owner recording n m log after
read-Adds owner recording id log v = record {
  called = v.called;
  recovered_within = v.recovered_within;
  recoveries_stay = v.recoveries_stay;
  confined = λ h. v.confined (tt, h);
  recorded = v.recorded;
}

module _ {Credentials Credential Canonical : Type 0}
    (env : Env Credentials Credential Canonical) where
  -- A recovery on its own.
  recovery-Adds :
      (owner : Kind) (id : String) {before after : List Action} {r : Recovery Credential}
      → Recovered env id before after r
      → Adds owner env.has_recorder 0 1 before after
  recovery-Adds owner id {before} (not_asked e) =
      rw e (Adds-le (Adds-none _ _ before) (omega arith) (omega arith))
  recovery-Adds owner id (refused e) = rw e (record {
    called = omega arith;
    recovered_within = omega arith;
    recoveries_stay = omega arith;
    confined = λ h. (tt, h);
    recorded = λ _. refl;
  })
  recovery-Adds owner id (asked e) = rw e (record {
    called = omega arith;
    recovered_within = omega arith;
    recoveries_stay = omega arith;
    confined = λ h. (tt, (tt, h));
    recorded = λ _. refl;
  })

  retries-log :
      (id : String) {before after : List Action} {c : Credential}
      → Recovered env id before after (retries c)
      → after ≡ asks_credential id ∷ recovers id ∷ before
  retries-log id (asked e) = e

module _ {Credentials Credential Canonical Reply A : Type 0}
    (env : Env Credentials Credential Canonical) (model : ResolvedModel)
    (call : Account Credentials → Credential → Step (Failable Reply))
    (finish : Account Credentials → Reply → Step (Outcome A))
    (call-log : (a : Account Credentials) (c : Credential) (w : World)
      → (call a c w).1.log ≡ generates a.id a.provider ∷ w.log)
    (finish-Adds : (a : Account Credentials) (r : Reply) (w : World)
      → Adds model.provider env.has_recorder 0 0 w.log (finish a r w).1.log) where
  abbrev Grows : ℕ → ℕ → World → World → Type 0
  Grows n m w w' = Adds model.provider env.has_recorder n m w.log w'.log

  fail_account-Adds :
      (a : Account Credentials) (c : ErrorClassification) (w : World)
      → Grows 0 0 w (fail_account env model call finish a c w).1
  unfolding fail_account
  fail_account-Adds a c w =
      rw
        (
          apply_failure-log env a.id model.upstream_name c _,
          record_usage-log env a.id one_failure w,
        )
        (failure-Adds model.provider env.has_recorder a.id model.upstream_name c w.log)

  follow-Adds :
      (n : ℕ) (next : ErrorClassification → Step (Outcome A))
      → ((c : ErrorClassification) (w : World) → Grows n n w (next c w).1)
      → (o : Next A) (w : World) → Grows n n w (follow env model call finish next o w).1
  unfolding follow
  follow-Adds n next h (returns o) w = Adds-le (Adds-none _ _ w.log) (omega arith) (omega arith)
  follow-Adds n next h (moves_on c) w = h c w

  finished-Adds :
      (a : Account Credentials) (r : Reply) (w : World)
      → Grows 0 0 w (finished env model call finish a r w).1
  unfolding finished
  finished-Adds a r w = finish-Adds a r w

  retry_same-Adds :
      (a : Account Credentials) (r : Failable Reply) (w : World)
      → Grows 0 0 w (retry_same env model call finish a r w).1
  unfolding retry_same
  retry_same-Adds a (ok r) w = finished-Adds a r w
  retry_same-Adds a (fail e) w = fail_account-Adds a (classify_execution_error e) w

  -- A call for an account of the provider itself.
  called-Adds :
      (a : Account Credentials) (credential : Credential) (m : ℕ) (w : World) {after : List Action}
      → a.provider ≡ model.provider
      → Adds model.provider env.has_recorder 0 m (call a credential w).1.log after
      → Adds model.provider env.has_recorder 1 m w.log after
  called-Adds a credential m w own v =
      generates-Adds model.provider env.has_recorder a.id a.provider m w.log own
        (rw (call-log a credential w) at v)

  recovered-Adds :
      (a : Account Credentials) (before : List Action) (r : Recovery Credential) (w : World)
      → a.provider ≡ model.provider
      → Recovered env a.id before w.log r
      → Adds model.provider env.has_recorder 0 1 before
          (recovered env model call finish a r w).1.log
  unfolding recovered
  recovered-Adds a before (gives_up c) w own v =
      Adds-trans (recovery-Adds env model.provider a.id v) (fail_account-Adds a c w)
  recovered-Adds a before (retries credential) w own v =
      retried-Adds model.provider env.has_recorder a.id before (
        subst
          (λ l.
            Adds model.provider env.has_recorder 1 0 l
              (recovered env model call finish a (retries credential) w).1.log)
          (retries-log env a.id v)
          (called-Adds a credential 0 w own
            (retry_same-Adds a (call a credential w).0 (call a credential w).1)))

  either-Adds :
      (b : Bool) (f g : Step (Next A)) (w : World)
      → Grows 0 1 w (f w).1
      → Grows 0 1 w (g w).1
      → Grows 0 1 w ((if b then f else g) w).1
  either-Adds true f g w hf hg = hf
  either-Adds false f g w hf hg = hg

  first_call-Adds :
      (a : Account Credentials) (r : Failable Reply) (w : World)
      → a.provider ≡ model.provider
      → Grows 0 1 w (first_call env model call finish a r w).1
  unfolding first_call
  first_call-Adds a (ok r) w own = Adds-le (finished-Adds a r w) (omega arith) (omega arith)
  first_call-Adds a (fail e) w own =
      let c = classify_execution_error e in
      let (r, w') = recover_authentication env a.id e c w in
      either-Adds c.refresh_same
        (recover_authentication env a.id e c >>= recovered env model call finish a)
        (fail_account env model call finish a c) w
        (recovered-Adds a w.log r w' own (recover_authentication-Recovered env a.id e c w))
        (Adds-le (fail_account-Adds a c w) (omega arith) (omega arith))

  with_credential-Adds :
      (a : Account Credentials) (r : Failable Credential) (w : World)
      → a.provider ≡ model.provider
      → Grows 1 1 w (with_credential env model call finish a r w).1
  unfolding with_credential
  with_credential-Adds a (ok c) w own =
      called-Adds a c 1 w own (first_call-Adds a (call a c w).0 (call a c w).1 own)
  with_credential-Adds a (fail e) w own =
      Adds-le (fail_account-Adds a (classify_execution_error e) w) (omega arith) (omega arith)

  attempt-Adds :
      (a : Account Credentials) (w : World)
      → a.provider ≡ model.provider
      → Grows 1 1 w (attempt env model call finish a w).1
  unfolding attempt
  attempt-Adds a w own =
      let (answer, w') = ask_credential env a.id w in
      asked-Adds model.provider env.has_recorder a.id w.log
        (rw (ask_credential-log env a.id w) at (with_credential-Adds a answer w' own))

  visit-Adds :
      (n : ℕ) (skip : Step (Outcome A)) (next : ErrorClassification → Step (Outcome A))
      → ((w : World) → Grows n n w (skip w).1)
      → ((c : ErrorClassification) (w : World) → Grows n n w (next c w).1)
      → (r : Failable (Account Credentials)) (w : World)
      → Grows (1 + n) (1 + n) w (visit env model call finish skip next r w).1
  unfolding visit
  visit-Adds n skip next hs hn (fail e) w =
      Adds-le (Adds-none _ _ w.log) (omega arith) (omega arith)
  visit-Adds n skip next hs hn (ok a) w = elim (Bool-cases (str_eq a.provider model.provider)) [
    | inr other ↦ rw other (Adds-le (hs w) (omega arith) (omega arith))
    | inl own ↦ rw own (
        let (o, w') = attempt env model call finish a w in
        Adds-trans (attempt-Adds a w ((eq_iff a.provider model.provider).0 own))
          (follow-Adds n next hn o w'))
  ]

  pub failover-Adds :
      (ordered : List Candidate) (last : Option ErrorClassification) (w : World)
      → Grows (length ordered) (length ordered) w (failover env model call finish ordered last w).1
  unfolding failover
  failover-Adds [] last w = Adds-none _ _ w.log
  failover-Adds (candidate ∷ rest) last w =
      let (r, w') = get_account env candidate.id w in
      Adds-le
        (read-Adds model.provider env.has_recorder candidate.id w.log (
          rw (get_account-log env candidate.id w) at (
            visit-Adds (length rest) (failover env model call finish rest last)
              (λ c. failover env model call finish rest (some c)) (failover-Adds rest last)
              (λ c. failover-Adds rest (some c)) r w')))
        (omega arith) (omega arith)
